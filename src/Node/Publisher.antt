-- ===== src/Node/Publisher.antt =====
-- The publisher actor: rosrust-async/src/node/actors/publisher.rs, with `Publication::new` of
-- tcpros/publication.rs. A handler runs to its end before the next message is taken, so it is a
-- function of the actor's state, the guards and the world.
pub mod Messages
pub mod Registry
pub mod Linked
pub mod Lifetime
mod Tests
use rosrust_async.Base.{
  ℕ, Bool, true, false, Option, none, some, List, [], ◌∷◌, map, Str, if◌then◌else◌, Result, ok, err,
  map_err,
}
use rosrust_async.Base.Action.{
  Action, ◌>>=◌, ◌>>◌, done, attempt, map_error, on_world, get_state, modify, from_result, always,
}
use rosrust_async.Base.Dict.{lookup, insert, remove}
use rosrust_async.Tcpros.Bytes.{IoError}
use rosrust_async.Tcpros.Net.{SocketAddr}
use rosrust_async.Tcpros.Spec.{Topic, CompatibilityError, validate_topic_specs}
use rosrust_async.Tcpros.Header.Defs.{HeaderError, PublisherHeader, publisher_fields}
use rosrust_async.Tcpros.Header.Ser.{to_bytes}
use rosrust_async.Xmlrpc.Dxr.{Dxr}
use rosrust_async.Xmlrpc.Master.{World, MasterClientError, RosMasterClient}
use rosrust_async.Xmlrpc.Master
use rosrust_async.Node.Guards.{Guards, new_guard, is_alive, retain, disarm_alive}
use rosrust_async.Tcpros.Publication.{PublicationError, io, header}

-- `TcpListener::bind` with `local_addr`, and `broadcast::channel` of a positive size, which gives a
-- new channel. The set of connected subscribers of a channel's publication belongs to its tasks.
pub record Host (W : Type 0) : Type 0 where
  pub bind : SocketAddr → Action W IoError SocketAddr
  pub channel : ℕ → W → ℕ × W
  pub subscriber_ids : ℕ → W → List Str

-- What the listener task of a publication is started with.
pub record Publication : Type 0 where
  pub topic : Topic
  pub address : SocketAddr
  pub data_tx : ℕ
  pub header : PublisherHeader
  pub header_bytes : Str
  pub tcp_nodelay : Bool

pub data PublisherActorError (dxr : Dxr) : Type 0 where
  master_client : MasterClientError dxr → PublisherActorError dxr
  incompatible : CompatibilityError → PublisherActorError dxr
  publication : PublicationError → PublisherActorError dxr

-- The actor's map, and the guards that its handles keep alive.
pub record PublisherActorState : Type 0 where
  pub publications : List (Str × (ℕ × Publication))
  pub guards : Guards

unfoldable pub new_state : PublisherActorState
new_state = record { publications = []; guards = [] }

-- A handle: the sending end of the channel, and the guard.
pub record Publisher : Type 0 where
  pub data_tx : ℕ
  pub guard : ℕ

pub record Registration : Type 0 where
  pub topic : Topic
  pub address : Str
  pub caller_id : Str
  pub queue_size : ℕ
  pub latching : Bool
  pub tcp_nodelay : Bool

unfoldable pub publisher_header : Registration → PublisherHeader
publisher_header r = record {
  caller_id = r.caller_id;
  topic = r.topic.name;
  md5sum = r.topic.spec.md5sum;
  msg_type = r.topic.spec.msg_type;
  msg_definition = r.topic.spec.msg_definition;
  latching = r.latching;
}

-- `Publication::new`, on any free port of the address.
unfoldable pub new_publication :
    {W : Type 0} → Host W → Registration → Action W PublicationError Publication
unfolding publisher_header
new_publication host r = do
  bound_addr ← map_error io (host.bind (r.address, 0))
  header_bytes ← from_result (map_err header (to_bytes (publisher_fields (publisher_header r))))
  data_tx ← always (host.channel r.queue_size)
  done (record {
    topic = r.topic;
    address = bound_addr;
    data_tx = data_tx;
    header = publisher_header r;
    header_bytes = header_bytes;
    tcp_nodelay = r.tcp_nodelay;
  })

module _ {dxr : Dxr} (world : World dxr) (master : RosMasterClient) (host : Host world.W) where
  open world use {W}

  abbrev pub Handler : Type 0 → Type 0
  Handler A = Action (PublisherActorState × W) (PublisherActorError dxr) A

  abbrev with_guards : (Guards → Guards) → Handler (Unit {0})
  with_guards f = modify (λ s. record s { guards = f s.guards })

  -- The publication is dropped at the end, which stops its tasks.
  unfoldable pub cleanup_publication : ℕ → Publication → Handler (Unit {0})
  cleanup_publication guard p = do
    with_guards (disarm_alive guard)
    _ ← on_world (map_error master_client (Master.unregister_publisher world master p.topic.name))
    done tt

  -- A new handle of a registration that is in use.
  share : Registration → ℕ → Publication → Handler Publisher
  share r guard p = do
    from_result (map_err incompatible (validate_topic_specs r.topic.spec p.topic.spec))
    with_guards (retain guard)
    done (record { data_tx = p.data_tx; guard = guard })

  enter : Registration → Publication → Handler Publisher
  enter r p = do
    s ← get_state
    let (guard, guards) = new_guard r.topic.name s.guards
    modify (λ _. record {
      publications = insert r.topic.name (guard, p) s.publications;
      guards = guards;
    })
    done (record { data_tx = p.data_tx; guard = guard })

  create : Registration → Handler Publisher
  create r = do
    p ← on_world (map_error publication (new_publication host r))
    _ ← on_world (
        map_error master_client
          (Master.register_publisher world master r.topic.name r.topic.spec.msg_type))
    enter r p

  -- An entry whose handles are gone is taken out first; an error of its cleanup is only logged.
  replace : Registration → ℕ → Publication → Handler Publisher
  replace r guard p = do
    modify (λ s. record s { publications = remove r.topic.name s.publications })
    _ ← attempt (cleanup_publication guard p)
    create r

  -- By the entry that the map holds for the topic.
  register_at : Registration → Guards → Option (ℕ × Publication) → Handler Publisher
  register_at r guards none = create r
  register_at r guards (some (guard, p)) =
      if is_alive guard guards then share r guard p else replace r guard p

  pub register_publisher : Registration → Handler Publisher
  unfolding register_at
  register_publisher r = do
    s ← get_state
    register_at r s.guards (lookup r.topic.name s.publications)

  pub unregister_publisher : Str → Handler (Unit {0})
  unregister_publisher topic_name = do
    s ← get_state
    elim (lookup topic_name s.publications) [
      | none ↦ done tt
      | some (guard, p) ↦ do
        modify (λ s'. record s' { publications = remove topic_name s'.publications })
        cleanup_publication guard p
    ]

pub get_publications : PublisherActorState → List (Str × Str)
get_publications s = map (λ e. (e.0, e.1.1.topic.spec.msg_type)) s.publications

unfoldable pub get_publisher_address : PublisherActorState → Str → Option SocketAddr
get_publisher_address s topic_name = elim (lookup topic_name s.publications) [
  | none ↦ none
  | some (guard, p) ↦ some p.address
]
