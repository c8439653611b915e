-- ===== src/Node/Service/Handles.antt =====
-- The drop of the handles of a service and of a service's client: `ServiceClientGuard` and
-- `ServiceServerGuard` of rosrust-async/src/node/actors/service.rs.
use rosrust_async.Base.{true, List, ℕ, ◌≡◌, refl, Option, none, some, Str, str_eq_refl, ok}
use rosrust_async.Base.Dict.{lookup, insert, remove, lookup-remove}
use rosrust_async.Tcpros.Net.{Net}
use rosrust_async.Tcpros.ServiceClient.{ServiceClientLink, new_link}
use rosrust_async.Xmlrpc.Dxr.{Dxr}
use rosrust_async.Xmlrpc.Master.{World, RosMasterClient}
use rosrust_async.Node.Guards.{new_guard, release, release-new_guard}
use rosrust_async.Node.Service.{
  ServiceActorState, ServiceClient, ClientEntry, ClientRegistration, register_client, client_at,
  make_client, enter_client, unregister_client,
}
use rosrust_async.Node.Service.Messages.{ServiceActorMsg, drop_client, drop_service, handle}

lookup_gone : (V : Type 0) (k : Str) (m : List (Str × V)) → lookup k (remove k m) ≡ none
lookup_gone V k m = rw (lookup-remove k k m, str_eq_refl k) refl

drop_client_message : Option Str → Option ServiceActorMsg
drop_client_message none = none
drop_client_message (some service_name) = some (drop_client service_name)

-- The message that the actor gets, if any.
unfoldable pub drop_client_handle :
    ServiceClient → ServiceActorState → Option ServiceActorMsg × ServiceActorState
unfolding drop_client_message
drop_client_handle c s = (
  drop_client_message (release c.guard s.client_guards).0,
  record s { client_guards = (release c.guard s.client_guards).1 },
)

drop_service_message : Option Str → Option ServiceActorMsg
drop_service_message none = none
drop_service_message (some service_name) = some (drop_service service_name)

unfoldable pub drop_server_handle :
    ℕ → ServiceActorState → Option ServiceActorMsg × ServiceActorState
unfolding drop_service_message
drop_server_handle c s = (
  drop_service_message (release c s.server_guards).0,
  record s { server_guards = (release c s.server_guards).1 },
)

module _ {dxr : Dxr} (world : World dxr) (net : Net world.W) (master : RosMasterClient) where
  open world use {W}

  -- A client of a service that the node has none of yet gets a link. When its only handle goes, the actor
  -- is told so, and when it has taken that message the link is in the map no more; the world is not asked.
  pub register_client-drop_client_handle :
      (r : ClientRegistration) (s : ServiceActorState) (w : W) (link : ServiceClientLink)
      → lookup r.service.name s.clients ≡ none
      → new_link r.service r.caller_id r.persistent ≡ ok link
      → (c : ServiceClient) × (s' : ServiceActorState) × (register_client world net master r (s, w)
          ≡ (ok c, (s', w)))
        × ((drop_client_handle c s').0 ≡ some (drop_client r.service.name))
        × (lookup r.service.name
              (handle world net master true
                (drop_client r.service.name)
                ((drop_client_handle c s').1, w)).1.0.clients
            ≡ none)
  unfolding register_client client_at make_client enter_client drop_client_handle handle
      unregister_client
  register_client-drop_client_handle r s w link absent made =
      let (guard, guards) = new_guard r.service.name s.client_guards in
      let entries =
        insert r.service.name (record { guard = guard; rpc_tx = guard; link = link }) s.clients in
      (
        record { rpc_tx = guard; guard = guard },
        record s { clients = entries; client_guards = guards },
        rw (absent, client_at, made) refl,
        rw (release-new_guard r.service.name s.client_guards) refl,
        lookup_gone ClientEntry r.service.name entries,
      )
