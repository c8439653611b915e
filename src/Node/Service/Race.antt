-- ===== src/Node/Service/Race.antt =====
-- The drop message of a registration that failed: `register_service`, the drop of a
-- `ServiceServerGuard` and `unregister_service` in rosrust-async/src/node/actors/service.rs.
use rosrust_async.Base.{
  ℕ, Bool, true, Str, ◌≡◌, refl, ◌++◌, none, some, [], ◌∷◌, Result, ok, err, str_eq_refl, arith,
}
use rosrust_async.Base.Action.{next, beside, convert}
use rosrust_async.Base.Dict.{lookup, remove, lookup-insert, lookup-remove}
use rosrust_async.Tcpros.Net.{Net}
use rosrust_async.Tcpros.Service.Provider.{ServiceProvider, new_provider}
use rosrust_async.Tcpros.Service.{ServiceProviderError}
use rosrust_async.Xmlrpc.Dxr.{Dxr}
use rosrust_async.Xmlrpc.Master.{World, RosMasterClient, MasterClientError}
use rosrust_async.Xmlrpc.Master
use rosrust_async.Node.Guards.{
  is_alive, disarm_alive, release-new_guard, is_alive-new_guard, is_alive-disarm_alive,
}
use rosrust_async.Node.Service.Messages.{handle, drop_service}
use rosrust_async.Node.Service.{
  ServiceActorError, ServiceActorState, ServiceRegistration, register_service, unregister_service,
  enter_server, service_provider, server_at, make_server, announce, settled, drop_guard, messages,
}

module _ {dxr : Dxr} (world : World dxr) (net : Net world.W) (master : RosMasterClient) where
  open world use {W}

  abbrev State : Type 0
  State = ServiceActorState

  -- An answer of a new server's registration: its entry is in the registry, and its guard in use.
  abbrev Entered : ServiceRegistration → Result (ServiceActorError dxr) ℕ × (State × W) → Type 0
  Entered r (ok guard, (s, w)) =
      (srv : ServiceProvider) × (lookup r.service.name s.servers ≡ some (guard, srv))
      × (is_alive guard s.server_guards ≡ true)
  Entered r (err e, (s, w)) = Unit

  settled-Entered :
      (r : ServiceRegistration) (guard : ℕ) (srv : ServiceProvider) (s : State) (w : W)
      (q : Result (ServiceActorError dxr) (Unit {0}))
      → is_alive guard s.server_guards ≡ true
      → Entered r (settled world net master r.service.name guard srv q (s, w))
  unfolding settled enter_server drop_guard
  settled-Entered r guard srv s w (ok u) alive = (
    srv,
    rw
        (
          lookup-insert r.service.name r.service.name (guard, srv) s.servers,
          str_eq_refl r.service.name,
        )
        refl,
    alive,
  )
  settled-Entered r guard srv s w (err e) alive = tt

  make_server-Entered :
      (r : ServiceRegistration) (s : State) (w : W)
      → Entered r (make_server world net master r (s, w))
  unfolding make_server announce
  make_server-Entered r s w = made (new_provider net (r.address, 0) r.service r.caller_id w)
    where
      made :
          (q : Result ServiceProviderError ServiceProvider × W)
          → Entered r (next (beside s (convert service_provider q)) (announce world net master r))
      made (ok srv, w') =
          settled-Entered r _ srv _ _ _ (is_alive-new_guard r.service.name s.server_guards)
      made (err e, w') = tt

  Entered-ok :
      (r : ServiceRegistration) (q : Result (ServiceActorError dxr) ℕ × (State × W)) (guard : ℕ)
      → Entered r q
      → q.0 ≡ ok guard
      → (srv : ServiceProvider) × (lookup r.service.name q.1.0.servers ≡ some (guard, srv))
        × (is_alive guard q.1.0.server_guards ≡ true)
  Entered-ok r (ok g, (s, w)) guard (srv, found, alive) e =
      let same : g ≡ guard = cc in (srv, rw (same) at found, rw (same) at alive)
  Entered-ok r (err error, (s, w)) guard b e = absurd (cc)

  drop_service_found :
      (heard : Bool) (name : Str) (guard : ℕ) (srv : ServiceProvider) (s : State) (w : W)
      → lookup name s.servers ≡ some (guard, srv)
      → (handle world net master heard (drop_service name) (s, w)).1 ≡ (
        record s {
          servers = remove name s.servers;
          server_guards = disarm_alive guard s.server_guards;
        },
        (Master.unregister_service world master name srv.url w).1,
      )
  unfolding handle unregister_service
  drop_service_found heard name guard srv s w found = ground (arith, found)

  refused_state :
      (r : ServiceRegistration) (s : State) (w w' : W) (srv : ServiceProvider)
      (e : MasterClientError dxr)
      → lookup r.service.name s.servers ≡ none
      → new_provider net (r.address, 0) r.service r.caller_id w ≡ (ok srv, w')
      → (Master.register_service world master r.service.name srv.url w').0 ≡ err e
      → ((register_service world net master r (s, w)).1.0.servers ≡ s.servers)
        × ((register_service world net master r (s, w)).1.0.drop_messages
            ≡ s.drop_messages ++ (r.service.name ∷ []))
  unfolding register_service server_at make_server announce settled drop_guard messages
  refused_state r s w w' srv e absent made refused =
      ground (arith, absent, made, refused, release-new_guard r.service.name s.server_guards)

  register_absent :
      (r : ServiceRegistration) (s : State) (w : W)
      → lookup r.service.name s.servers ≡ none
      → Entered r (register_service world net master r (s, w))
  unfolding register_service server_at
  register_absent r s w absent = rw (absent, server_at) (make_server-Entered r s w)

  -- A service that is not registered has its server set up and is refused by the master, which leaves
  -- one drop message more, with the service's name. Before the actor reads that message, the same
  -- service is registered again, at whatever the world is by then, and this succeeds: the service
  -- has its entry. Reading the message then takes that entry out and unregisters the new server's
  -- address at the master, although the guard of the new registration is still in use.
  pub register_service-drop_messages :
      (heard : Bool) (r : ServiceRegistration) (s : State) (w w' w2 : W) (srv : ServiceProvider)
      (e : MasterClientError dxr) (guard : ℕ)
      → lookup r.service.name s.servers ≡ none
      → new_provider net (r.address, 0) r.service r.caller_id w ≡ (ok srv, w')
      → (Master.register_service world master r.service.name srv.url w').0 ≡ err e
      → let refused = (register_service world net master r (s, w)).1.0 in
        let again = register_service world net master r (refused, w2) in
        again.0 ≡ ok guard
        → let read = (handle world net master heard (drop_service r.service.name) again.1).1 in
          (refused.drop_messages ≡ s.drop_messages ++ (r.service.name ∷ []))
          × (srv2 : ServiceProvider) × (lookup r.service.name again.1.0.servers
              ≡ some (guard, srv2))
          × (lookup r.service.name read.0.servers ≡ none)
          × (is_alive guard read.0.server_guards ≡ true)
          × (read.1 ≡ (Master.unregister_service world master r.service.name srv2.url again.1.1).1)
  register_service-drop_messages heard r s w w' w2 srv e guard absent made refused registered =
      let (same, left) = refused_state r s w w' srv e absent made refused in
      let s1 = (register_service world net master r (s, w)).1.0 in
      let again = register_service world net master r (s1, w2) in
      let (srv2, found, alive) =
        Entered-ok r again guard (register_absent r s1 w2 (rw (same) absent)) registered in
      let read = drop_service_found heard r.service.name guard srv2 again.1.0 again.1.1 found in
      (
        left,
        srv2,
        found,
        rw
            (
              read,
              lookup-remove r.service.name r.service.name again.1.0.servers,
              str_eq_refl r.service.name,
            )
            refl,
        rw (read, is_alive-disarm_alive guard guard again.1.0.server_guards) alive,
        rw (read) refl,
      )
