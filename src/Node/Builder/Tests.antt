-- ===== src/Node/Builder/Tests.antt =====
-- Builders in a process that sets `ROS_HOSTNAME`: rosrust-async/src/node/builder.rs.
use mathlib.Core.Option.{get_or}
use rosrust_async.Base.{
  ◌≡◌, refl, Option, none, some, [], ◌∷◌, Str, codes, str_eq, if◌then◌else◌, Result, ok, err,
}
use rosrust_async.Tcpros.Net.{SocketAddr}
use rosrust_async.Tcpros.SampleNet.{sample_net}
use rosrust_async.Xmlrpc.Samples.{sample_dxr, sample_world, server}
use rosrust_async.Node.Handle.{NodeInfo}
use rosrust_async.Node.Builder.{
  Environment, NodeBuilder, Spawned, new, with_advertise_ip, resolve_hostname, BuilderError,
  invalid_hostname, api_url_text, started, build,
}
use rosrust_async.Node.Builder.Precedence.{first_of, hosts, bound, master_text, build-hosts}

abbrev environment : Environment
environment = record {
  IpAddr = Str;
  parse_ip = some;
  ip_text = λ ip. ip;
  var = λ name. if str_eq name (codes "ROS_HOSTNAME") then some (codes "env") else none;
  gethostname = ok (codes "machine");
}

abbrev nameless : Environment
nameless = record environment { var = λ name. none; gethostname = err (codes "?") }

abbrev builder : NodeBuilder Str
builder = with_advertise_ip new (codes "10.0.0.1")

abbrev spawned : Spawned
spawned = record { publisher = ok tt; subscriber = ok tt; parameter = ok tt; service = ok tt }

resolve_hostname_of_ip :
    resolve_hostname nameless {dxr = sample_dxr} {ParseError = Str} builder ≡ ok (codes "10.0.0.1")
unfolding resolve_hostname
resolve_hostname_of_ip = refl

resolve_hostname_invalid :
    resolve_hostname nameless {dxr = sample_dxr} {ParseError = Str} new
    ≡ err (invalid_hostname (codes "?"))
unfolding resolve_hostname
resolve_hostname_invalid = refl

abbrev info : NodeInfo
info = record {
  name = codes "/rosrust_async";
  hostname = codes "env";
  address = (codes "0.0.0.0", 40000);
  api_url = codes "http://env:40000";
  master_url = codes "http://127.0.0.1:11311";
}

build-hosts_example :
    (hostname : Str) × (addr : SocketAddr) × (u : sample_net.Url) × (m : sample_net.Url) × (bound
        sample_world sample_net spawned environment builder server
      ≡ (ok addr, server))
    × (first_of (hosts environment builder) environment.gethostname ≡ ok hostname)
    × (sample_net.parse_url (api_url_text hostname addr.1) ≡ ok u)
    × (sample_net.parse_url (
          master_text sample_world sample_net spawned environment builder
            (environment.var (codes "ROS_MASTER_URI")))
        ≡ ok m)
    × (started sample_world sample_net spawned info
        ≡ started sample_world sample_net spawned (record {
          name = get_or builder.node_name (codes "/rosrust_async");
          hostname = hostname;
          address = addr;
          api_url = sample_net.url_text u;
          master_url = sample_net.url_text m;
        }))
unfolding build resolve_hostname str_eq rosrust_async.Node.Builder.resolve_master_url
    rosrust_async.Node.Builder.new_node api_url_text started rosrust_async.Node.Builder.resolve_name
    rosrust_async.Node.Builder.resolve_bind_address rosrust_async.Base.decimal
build-hosts_example =
    build-hosts sample_world sample_net spawned environment builder server server
      (started sample_world sample_net spawned info) refl
