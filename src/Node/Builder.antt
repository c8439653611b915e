-- ===== src/Node/Builder.antt =====
-- The configuration of a node, and its start: rosrust-async/src/node/builder.rs and `Node::new` of node/mod.rs.
-- The process's environment, the machine's name, and std's parser and printer of IP addresses are parameters.
pub mod Precedence
mod Tests
use mathlib.Core.Option.{get_or, bind}
use rosrust_async.Base.{
  ℕ, Option, none, some, ◌++◌, ◌∷◌, map, Str, codes, decimal, Result, ok, err, map_err, ok_or,
}
use rosrust_async.Base.Action.{Action, ◌>>=◌, ◌>>◌, done, from_result, map_error}
use rosrust_async.Tcpros.Bytes.{IoError}
use rosrust_async.Tcpros.Net.{SocketAddr, Net}
use rosrust_async.Xmlrpc.Dxr.{Dxr}
use rosrust_async.Xmlrpc.Master.{World}
use rosrust_async.Node.Publisher as Publishers
use rosrust_async.Node.Subscriber as Subscribers
use rosrust_async.Node.Service as Services
use rosrust_async.Node.Parameter as Parameters
use rosrust_async.Node.Handle.{NodeInfo, ActorRefs, NodeError, actor_spawn, master_client}

-- `gethostname` gives a name, or its text with what is not UTF-8 replaced.
pub record Environment : Type 1 where
  pub IpAddr : Type 0
  pub parse_ip : Str → Option IpAddr
  pub ip_text : IpAddr → Str
  pub var : Str → Option Str
  pub gethostname : Result Str Str

pub record NodeBuilder (IpAddr : Type 0) : Type 0 where
  pub node_name : Option Str
  pub master_url : Option Str
  pub bind_address : Option SocketAddr
  pub advertise_ip : Option IpAddr
  pub advertise_hostname : Option Str

pub data BuilderError (dxr : Dxr) (ParseError : Type 0) : Type 0 where
  io : IoError → BuilderError dxr ParseError
  url bad_master_url : ParseError → BuilderError dxr ParseError
  node : NodeError dxr → BuilderError dxr ParseError
  invalid_hostname : Str → BuilderError dxr ParseError

-- An `unwrap` of an error, or a returned error.
pub data Stop (E : Type 0) : Type 0 where
  panicked : Stop E
  returned : E → Stop E

-- `Option::or_else`, of an option without effects.
unfoldable pub or_else : {A : Type 0} → Option A → Option A → Option A
or_else (some a) other = some a
or_else none other = other

abbrev pub new : {IpAddr : Type 0} → NodeBuilder IpAddr
new = record {
  node_name = none;
  master_url = none;
  bind_address = none;
  advertise_ip = none;
  advertise_hostname = none;
}

module _ {IpAddr : Type 0} (b : NodeBuilder IpAddr) where
  abbrev pub with_name : Str → NodeBuilder IpAddr
  with_name name = record b { node_name = some name }

  abbrev pub with_advertise_ip : IpAddr → NodeBuilder IpAddr
  with_advertise_ip ip = record b { advertise_ip = some ip }

  abbrev pub with_advertise_hostname : Str → NodeBuilder IpAddr
  with_advertise_hostname hostname = record b { advertise_hostname = some hostname }

  abbrev pub with_bind_address : SocketAddr → NodeBuilder IpAddr
  with_bind_address address = record b { bind_address = some address }

  abbrev pub with_master_url : Str → NodeBuilder IpAddr
  with_master_url text = record b { master_url = some text }

module _ (env : Environment) where
  open env use {IpAddr, parse_ip, ip_text, var, gethostname}

  unfoldable pub configured_ip : NodeBuilder IpAddr → Option IpAddr
  unfolding or_else bind
  configured_ip b = or_else b.advertise_ip (bind (var (codes "ROS_IP")) parse_ip)

  unfoldable pub configured_hostname : NodeBuilder IpAddr → Option Str
  unfolding or_else
  configured_hostname b = or_else b.advertise_hostname (var (codes "ROS_HOSTNAME"))

  unfoldable pub resolve_name : NodeBuilder IpAddr → Str
  resolve_name b = get_or b.node_name (codes "/rosrust_async")

  unfoldable pub resolve_bind_address : NodeBuilder IpAddr → SocketAddr
  resolve_bind_address b = get_or b.bind_address (codes "0.0.0.0", 0)

  -- `match` on the configured host.
  host_or :
      {dxr : Dxr} {ParseError : Type 0}
      → Result Str Str
      → Option Str
      → Result (BuilderError dxr ParseError) Str
  host_or name (some host) = ok host
  host_or name none = map_err invalid_hostname name

  unfoldable pub resolve_hostname :
      {dxr : Dxr} {ParseError : Type 0}
      → NodeBuilder IpAddr
      → Result (BuilderError dxr ParseError) Str
  unfolding host_or configured_hostname configured_ip or_else bind
  resolve_hostname b =
      host_or gethostname
        (or_else (configured_hostname b) (bind (configured_ip b) (λ ip. some (ip_text ip))))

  unfoldable pub resolve_master_url :
      {dxr : Dxr} {W : Type 0}
      → (net : Net W) → NodeBuilder IpAddr
      → Result (BuilderError dxr net.ParseError) net.Url
  unfolding or_else
  resolve_master_url net b = map_err bad_master_url (
      net.parse_url (
        get_or (or_else b.master_url (var (codes "ROS_MASTER_URI")))
          (codes "http://127.0.0.1:11311")))

-- What ractor says of spawning each actor, in this order.
pub record Spawned : Type 0 where
  pub publisher : Result Str (Unit {0})
  pub subscriber : Result Str (Unit {0})
  pub parameter : Result Str (Unit {0})
  pub service : Result Str (Unit {0})

unfoldable pub api_url_text : Str → ℕ → Str
api_url_text hostname port = codes "http://" ++ (hostname ++ (b':' ∷ decimal port))

module _ {dxr : Dxr} (world : World dxr) (net : Net world.W) (spawned : Spawned) where
  open world use {W}

  abbrev Started : Type 0
  Started = NodeInfo × ActorRefs dxr

  -- `Url::parse(…).unwrap()`
  unwrap : {E A : Type 0} → Result E A → Result (Stop (NodeError dxr)) A
  unwrap (ok a) = ok a
  unwrap (err e) = err panicked

  spawn_actor : Result Str (Unit {0}) → Result (Stop (NodeError dxr)) (Unit {0})
  spawn_actor = map_err (λ e. returned (actor_spawn e))

  unfoldable pub started : NodeInfo → Started
  started info = (
    info,
    record {
      pub_actor = some Publishers.new_state;
      sub_actor = some (Subscribers.new_state info.name);
      svc_actor = some Services.new_state;
      param_actor = some (Parameters.new_state world (master_client info));
    },
  )

  -- `Node::new`, of a listener with the address that it is bound to.
  unfoldable pub new_node :
      Str → Str → Result IoError SocketAddr → net.Url → Action W (Stop (NodeError dxr)) Started
  unfolding unwrap spawn_actor
  new_node name hostname local_addr master_url = do
    bind_address ← from_result (map_err (λ e. returned (NodeError.io e)) local_addr)
    api_url ← from_result (unwrap (net.parse_url (api_url_text hostname bind_address.1)))
    from_result (spawn_actor spawned.publisher)
    from_result (spawn_actor spawned.subscriber)
    from_result (spawn_actor spawned.parameter)
    from_result (spawn_actor spawned.service)
    done (
        started (record {
          name = name;
          hostname = hostname;
          address = bind_address;
          api_url = net.url_text api_url;
          master_url = net.url_text master_url;
        }))

  abbrev from_node : Stop (NodeError dxr) → Stop (BuilderError dxr net.ParseError)
  from_node panicked = panicked
  from_node (returned e) = returned (node e)

  -- `NodeBuilder::build`. The listener's address is asked for once it is bound.
  unfoldable pub build :
      (env : Environment)
      → NodeBuilder env.IpAddr
      → Action W (Stop (BuilderError dxr net.ParseError)) Started
  build env b = do
    local_addr ← map_error (λ e. returned (io e)) (net.bind (resolve_bind_address env b))
    hostname ← from_result (map_err returned (resolve_hostname env b))
    master_url ← from_result (map_err returned (resolve_master_url env net b))
    map_error from_node (new_node (resolve_name env b) hostname (ok local_addr) master_url)
