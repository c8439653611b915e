-- ===== src/Node/Service/Messages.antt =====
-- The messages of the service actor and its end: `handle` and `post_stop` of
-- rosrust-async/src/node/actors/service.rs.
use rosrust_async.Base.{Bool, ℕ, List, [], ◌∷◌, Str, Result}
use rosrust_async.Base.Action.{Action, ◌>>=◌, ◌>>◌, done, attempt, get_state, modify}
use rosrust_async.Tcpros.Net.{Net}
use rosrust_async.Tcpros.Service.Provider.{ServiceProvider}
use rosrust_async.Xmlrpc.Dxr.{Dxr}
use rosrust_async.Xmlrpc.Master.{World, RosMasterClient}
use rosrust_async.Node.Guards.{Guards, disarm_alive}
use rosrust_async.Node.Service as Service
use rosrust_async.Node.Port.{MessagingErr, send_reply}
use rosrust_async.Node.Service.{
  ServiceActorError, ServiceActorState, ServiceClient, ClientEntry, ServiceRegistration,
  ClientRegistration, Handler, cleanup_server,
}

pub data ServiceActorMsg : Type 0 where
  register_client : ClientRegistration → ServiceActorMsg
  register_service : ServiceRegistration → ServiceActorMsg
  get_services : ServiceActorMsg
  drop_client drop_service : Str → ServiceActorMsg

pub data Reply (dxr : Dxr) : Type 0 where
  client : Result (ServiceActorError dxr) ServiceClient → Reply dxr
  server : Result (ServiceActorError dxr) ℕ → Reply dxr
  services : List (Str × Str) → Reply dxr
  no_reply : Reply dxr

module _ {dxr : Dxr} (world : World dxr) (net : Net world.W) (master : RosMasterClient) where
  -- The reply goes to the caller if there is still one; else the handler fails. An error after a drop message
  -- is only logged.
  unfoldable pub handle :
      Bool → ServiceActorMsg → Action (ServiceActorState × world.W) MessagingErr (Reply dxr)
  handle heard (register_client r) = do
    result ← attempt (Service.register_client world net master r)
    send_reply heard (client result)
  handle heard (register_service r) = do
    result ← attempt (Service.register_service world net master r)
    send_reply heard (server result)
  handle heard get_services = do s ← get_state; send_reply heard (services (Service.get_services s))
  handle heard (drop_client service_name) = do
    _ ← attempt (Service.unregister_client world net master service_name)
    done no_reply
  handle heard (drop_service service_name) = do
    _ ← attempt (Service.unregister_service world net master service_name)
    done no_reply

  unfoldable pub cleanup_servers :
      List (Str × (ℕ × ServiceProvider)) → Handler world net master (Unit {0})
  cleanup_servers [] = done tt
  cleanup_servers ((service_name, (guard, srv)) ∷ rest) = do
    _ ← attempt (cleanup_server world net master guard srv)
    cleanup_servers rest

  unfoldable pub disarm_all : List (Str × ClientEntry) → Guards → Guards
  disarm_all [] guards = guards
  disarm_all ((service_name, e) ∷ rest) guards = disarm_all rest (disarm_alive e.guard guards)

  -- The maps are taken out of the state first; an error does not end the loop.
  unfoldable pub post_stop : Handler world net master (Unit {0})
  unfolding cleanup_servers disarm_all
  post_stop = do
    s ← get_state
    modify (λ s'. record s' { servers = [] })
    cleanup_servers s.servers
    modify
        (λ s'. record s' { clients = []; client_guards = disarm_all s'.clients s'.client_guards })
