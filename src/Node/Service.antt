-- ===== src/Node/Service.antt =====
-- The service actor: rosrust-async/src/node/actors/service.rs. As for the other actors, a handler is a
-- function of the actor's state and the world.
pub mod Messages
pub mod Offers
pub mod Race
pub mod Handles
mod Tests
use rosrust_async.Base.{
  ℕ, Bool, true, false, Option, none, some, List, [], ◌∷◌, ◌++◌, map, Str, if◌then◌else◌, Result,
  ok, err, map_err,
}
use rosrust_async.Base.Action.{
  Action, ◌>>=◌, ◌>>◌, done, fail, attempt, map_error, on_world, get_state, modify, from_result,
}
use rosrust_async.Base.Dict.{lookup, insert, remove}
use rosrust_async.Tcpros.Net.{Net}
use rosrust_async.Tcpros.Spec.{Service, CompatibilityError, validate_service_specs}
use rosrust_async.Tcpros.Header.Defs.{HeaderError}
use rosrust_async.Tcpros.Service.{ServiceProviderError}
use rosrust_async.Tcpros.Service.Provider.{ServiceProvider, new_provider}
use rosrust_async.Tcpros.ServiceClient.{ServiceClientLink, new_link}
use rosrust_async.Xmlrpc.Dxr.{Dxr}
use rosrust_async.Xmlrpc.Master.{World, MasterClientError, RosMasterClient}
use rosrust_async.Xmlrpc.Master
use rosrust_async.Node.Guards.{Guards, new_guard, is_alive, retain, release, disarm_alive}

pub data ServiceActorError (dxr : Dxr) : Type 0 where
  master_client : MasterClientError dxr → ServiceActorError dxr
  header_failure : HeaderError → ServiceActorError dxr
  compatibility : CompatibilityError → ServiceActorError dxr
  service_provider : ServiceProviderError → ServiceActorError dxr

-- A link with the number of its queue.
pub record ClientEntry : Type 0 where
  pub guard : ℕ
  pub rpc_tx : ℕ
  pub link : ServiceClientLink

-- Both maps with the guards of their handles, and the drop messages for services that the handlers
-- themselves have sent to the actor.
pub record ServiceActorState : Type 0 where
  pub clients : List (Str × ClientEntry)
  pub client_guards : Guards
  pub servers : List (Str × (ℕ × ServiceProvider))
  pub server_guards : Guards
  pub drop_messages : List Str

unfoldable pub new_state : ServiceActorState
new_state = record {
  clients = [];
  client_guards = [];
  servers = [];
  server_guards = [];
  drop_messages = [];
}

-- A client handle: the queue of the link, and the guard. A server handle is its guard.
pub record ServiceClient : Type 0 where
  pub rpc_tx : ℕ
  pub guard : ℕ

pub record ServiceRegistration : Type 0 where
  pub service : Service
  pub address : Str
  pub caller_id : Str

pub record ClientRegistration : Type 0 where
  pub service : Service
  pub caller_id : Str
  pub persistent : Bool

pub get_services : ServiceActorState → List (Str × Str)
get_services s = map (λ e. (e.0, e.1.1.service.spec.msg_type)) s.servers

module _ {dxr : Dxr} (world : World dxr) (net : Net world.W) (master : RosMasterClient) where
  open world use {W}

  abbrev pub Handler : Type 0 → Type 0
  Handler A = Action (ServiceActorState × W) (ServiceActorError dxr) A

  abbrev with_clients : (Guards → Guards) → Handler (Unit {0})
  with_clients f = modify (λ s. record s { client_guards = f s.client_guards })

  abbrev with_servers : (Guards → Guards) → Handler (Unit {0})
  with_servers f = modify (λ s. record s { server_guards = f s.server_guards })

  enter_client : ClientRegistration → ServiceClientLink → Handler ServiceClient
  enter_client r link = do
    s ← get_state
    let (guard, guards) = new_guard r.service.name s.client_guards
    modify (λ s'. record s' {
      clients =
          insert r.service.name (record { guard = guard; rpc_tx = guard; link = link }) s'.clients;
      client_guards = guards;
    })
    done (record { rpc_tx = guard; guard = guard })

  make_client : ClientRegistration → Handler ServiceClient
  make_client r = do
    link ← from_result (map_err header_failure (new_link r.service r.caller_id r.persistent))
    enter_client r link

  share_client : ClientRegistration → ClientEntry → Handler ServiceClient
  share_client r e = do
    from_result (map_err compatibility (validate_service_specs r.service.spec e.link.service.spec))
    with_clients (retain e.guard)
    done (record { rpc_tx = e.rpc_tx; guard = e.guard })

  -- By the entry that the map holds for the service; an entry whose handles are gone is taken out.
  client_at : ClientRegistration → Guards → Option ClientEntry → Handler ServiceClient
  client_at r guards none = make_client r
  client_at r guards (some e) =
      if is_alive e.guard guards
      then share_client r e
      else (do modify (λ s. record s { clients = remove r.service.name s.clients }); make_client r)

  pub register_client : ClientRegistration → Handler ServiceClient
  register_client r = do
    s ← get_state
    client_at r s.client_guards (lookup r.service.name s.clients)

  pub unregister_client : Str → Handler (Unit {0})
  unregister_client service_name =
      modify (λ s. record s { clients = remove service_name s.clients })

  unfoldable pub cleanup_server : ℕ → ServiceProvider → Handler (Unit {0})
  cleanup_server guard server = do
    with_servers (disarm_alive guard)
    _ ← on_world (
        map_error master_client
          (Master.unregister_service world master server.service.name server.url))
    done tt

  messages : Option Str → List Str
  messages none = []
  messages (some name) = name ∷ []

  -- The handler's own handle goes when it fails, which may send the drop message.
  drop_guard : ℕ → Handler (Unit {0})
  drop_guard guard = modify (λ s. record s {
    server_guards = (release guard s.server_guards).1;
    drop_messages = s.drop_messages ++ messages (release guard s.server_guards).0;
  })

  enter_server : Str → ℕ → ServiceProvider → Handler ℕ
  enter_server name guard srv = do
    modify (λ s. record s { servers = insert name (guard, srv) s.servers })
    done guard

  settled : Str → ℕ → ServiceProvider → Result (ServiceActorError dxr) (Unit {0}) → Handler ℕ
  settled name guard srv (ok u) = enter_server name guard srv
  settled name guard srv (err e) = do drop_guard guard; fail e

  -- The guard is made before the master is asked.
  announce : ServiceRegistration → ServiceProvider → Handler ℕ
  announce r srv = do
    s ← get_state
    let (guard, guards) = new_guard r.service.name s.server_guards
    with_servers (λ _. guards)
    registered ← attempt (
        on_world
          (map_error master_client (Master.register_service world master r.service.name srv.url)))
    settled r.service.name guard srv registered

  make_server : ServiceRegistration → Handler ℕ
  make_server r = do
    srv ←
        on_world
          (map_error service_provider (new_provider net (r.address, 0) r.service r.caller_id))
    announce r srv

  share_server : ServiceRegistration → ℕ → ServiceProvider → Handler ℕ
  share_server r guard server = do
    from_result (map_err compatibility (validate_service_specs r.service.spec server.service.spec))
    with_servers (retain guard)
    done guard

  server_at : ServiceRegistration → Guards → Option (ℕ × ServiceProvider) → Handler ℕ
  server_at r guards none = make_server r
  server_at r guards (some (guard, server)) =
      if is_alive guard guards
      then share_server r guard server
      else (do modify (λ s. record s { servers = remove r.service.name s.servers }); make_server r)

  pub register_service : ServiceRegistration → Handler ℕ
  register_service r = do
    s ← get_state
    server_at r s.server_guards (lookup r.service.name s.servers)

  pub unregister_service : Str → Handler (Unit {0})
  unregister_service service_name = do
    s ← get_state
    elim (lookup service_name s.servers) [
      | none ↦ done tt
      | some (guard, server) ↦ do
        modify (λ s'. record s' { servers = remove service_name s'.servers })
        with_servers (disarm_alive guard)
        _ ← on_world (
            map_error master_client
              (Master.unregister_service world master service_name server.url))
        done tt
    ]
