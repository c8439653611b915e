-- ===== src/Node/Service/Offers.antt =====
-- What the service actor promises: an abstract state, the services on offer with their descriptions, and
-- what each message may do to it. The actor refines it, whatever the master answers.
use rosrust_async.Base.{
  Bool, true, ℕ, Option-cases, str_eq_iff, ◌≡◌, refl, ◌⊎◌, inl, inr, false, Option, none, some, Str,
  str_eq, if◌then◌else◌, Result, ok, err, arith, Result-cases, ap, ◌∙◌,
}
use rosrust_async.Base.Action.{next, convert, beside, ◌>>◌}
use rosrust_async.Base.Dict.{lookup, remove, lookup-insert, lookup-remove}
use rosrust_async.Tcpros.Net.{Net}
use rosrust_async.Tcpros.Spec.{ServiceSpec, validate_service_specs}
use rosrust_async.Tcpros.Service.{ServiceProviderError}
use rosrust_async.Tcpros.Service.Provider.{ServiceProvider, new_provider}
use rosrust_async.Xmlrpc.Dxr.{Dxr}
use rosrust_async.Xmlrpc.Master.{World, RosMasterClient}
use rosrust_async.Node.Guards.{is_alive}
use rosrust_async.Node.Service as Service
use rosrust_async.Node.Service.{
  ServiceActorError, ServiceActorState, ServiceRegistration, register_client, unregister_client,
  register_service, unregister_service, client_at, make_client, enter_client, share_client,
  server_at, make_server, share_server, announce, settled, enter_server, drop_guard,
  service_provider, master_client,
}
use rosrust_async.Node.Service.Messages.{
  ServiceActorMsg, Reply, server, get_services, drop_client, drop_service, handle,
}
use rosrust_async.Node.Service.Messages

-- The services on offer, by name.
abbrev pub Offers : Type 0
Offers = Str → Option ServiceSpec

spec_of : Option (ℕ × ServiceProvider) → Option ServiceSpec
spec_of none = none
spec_of (some (guard, srv)) = some srv.service.spec

unfoldable pub offers : ServiceActorState → Offers
unfolding spec_of
offers s name = spec_of (lookup name s.servers)

abbrev pub Keeps : Offers → Offers → Type 0
Keeps v v' = (key : Str) → v' key ≡ v key

abbrev pub Withdraws : Str → Offers → Offers → Type 0
Withdraws name v v' = (key : Str) → v' key ≡ (if str_eq name key then none else v key)

abbrev pub Adds : Str → ServiceSpec → Offers → Offers → Type 0
Adds name spec v v' = (key : Str) → v' key ≡ (if str_eq name key then some spec else v key)

-- A registration that succeeds offers the service, or finds a compatible one on offer. One that fails
-- offers nothing new; it may have taken out what nobody used.
abbrev pub Registers : {A E : Type 0} → ServiceRegistration → Result E A → Offers → Offers → Type 0
Registers r (ok a) v v' =
    Adds r.service.name r.service.spec v v'
    ⊎ (Keeps v v'
        × ((spec : ServiceSpec) × (v r.service.name ≡ some spec)
            × (validate_service_specs r.service.spec spec ≡ ok tt)))
Registers r (err e) v v' = Keeps v v' ⊎ Withdraws r.service.name v v'

abbrev pub Effect : {dxr : Dxr} → ServiceActorMsg → Reply dxr → Offers → Offers → Type 0
Effect (Messages.register_service r) (server result) v v' = Registers r result v v'
Effect (Messages.register_service r) _ v v' = ⊥
Effect (drop_service name) reply v v' = Withdraws name v v'
Effect _ reply v v' = Keeps v v'

pub new_provider-service :
    {W : Type 0} (net : Net W) (r : ServiceRegistration) (w : W) (p : ServiceProvider)
    → (new_provider net (r.address, 0) r.service r.caller_id w).0 ≡ ok p
    → p.service ≡ r.service
unfolding new_provider
new_provider-service net r w p e = ground arith

module _ {dxr : Dxr} (world : World dxr) (net : Net world.W) (master : RosMasterClient) where
  open world use {W}

  abbrev State : Type 0
  State = ServiceActorState

  -- How a registration's outcome stands to the offers before it.
  abbrev Registered :
      {A : Type 0}
      → ServiceRegistration
      → State
      → Result (ServiceActorError dxr) A × (State × W)
      → Type 0
  Registered r s (result, (s', w)) = Registers r result (offers s) (offers s')

  unregister-Withdraws :
      (name : Str) (s : State) (w : W)
      → Withdraws name (offers s) (offers (unregister_service world net master name (s, w)).1.0)
  unfolding unregister_service offers
  unregister-Withdraws name s w key = elim (Option-cases (lookup name s.servers)) [
    | inl absent ↦ ground (arith, absent, str_eq_iff name key)
    | inr ((guard, srv), found) ↦ ground (arith, found, lookup-remove name key s.servers)
  ]

  remove-Withdraws :
      (name : Str) (s : State)
      → Withdraws name (offers s) (offers (record s { servers = remove name s.servers }))
  unfolding offers
  remove-Withdraws name s key = ground (arith, lookup-remove name key s.servers)

  -- A new server is entered, or nothing is.
  abbrev Made :
      {A : Type 0}
      → ServiceRegistration
      → State
      → Result (ServiceActorError dxr) A × (State × W)
      → Type 0
  Made r s (ok a, (s', w)) = Adds r.service.name r.service.spec (offers s) (offers s')
  Made r s (err e, (s', w)) = Keeps (offers s) (offers s')

  settled-Made :
      (r : ServiceRegistration) (guard : ℕ) (srv : ServiceProvider) (s s' : State) (w : W)
      (q : Result (ServiceActorError dxr) (Unit {0}))
      → srv.service ≡ r.service
      → s'.servers ≡ s.servers
      → Made r s (settled world net master r.service.name guard srv q (s', w))
  unfolding settled enter_server drop_guard offers
  settled-Made r guard srv s s' w (ok u) same servers = λ key. ground (
    arith,
    same,
    servers,
    lookup-insert r.service.name key (guard, srv) s.servers,
    ap (λ (t : Service.Service). t.spec) same,
  )
  settled-Made r guard srv s s' w (err e) same servers = λ key. rw (servers) refl

  announce-Made :
      (r : ServiceRegistration) (srv : ServiceProvider) (s : State) (w : W)
      → srv.service ≡ r.service
      → Made r s (announce world net master r srv (s, w))
  unfolding announce
  announce-Made r srv s w same = settled-Made r _ srv s _ _ _ same refl

  make_server-Made :
      (r : ServiceRegistration) (s : State) (w : W)
      → Made r s (make_server world net master r (s, w))
  unfolding make_server
  make_server-Made r s w =
      made (new_provider net (r.address, 0) r.service r.caller_id w) (new_provider-service net r w)
    where
      made :
          (q : Result ServiceProviderError ServiceProvider × W)
          → ((p : ServiceProvider) → q.0 ≡ ok p → p.service ≡ r.service)
          → Made r s (next (beside s (convert service_provider q)) (announce world net master r))
      made (ok p, w') h = announce-Made r p s w' (h p refl)
      made (err e, w') h = λ key. refl

  Made-Registers :
      {A : Type 0} (r : ServiceRegistration) (s s' : State)
      (q : Result (ServiceActorError dxr) A × (State × W))
      → Keeps (offers s) (offers s') ⊎ Withdraws r.service.name (offers s) (offers s')
      → Made r s' q
      → Registered r s q
  Made-Registers r s s' (ok a, x) (inl same) h = inl (λ key. ground (arith, h key, same key))
  Made-Registers r s s' (ok a, x) (inr less) h = inl (λ key. ground (arith, h key, less key))
  Made-Registers r s s' (err e, x) (inl same) h = inl (λ key. h key ∙ same key)
  Made-Registers r s s' (err e, x) (inr less) h = inr (λ key. h key ∙ less key)

  share-Registers :
      (r : ServiceRegistration) (guard : ℕ) (srv : ServiceProvider) (s : State) (w : W)
      → lookup r.service.name s.servers ≡ some (guard, srv)
      → Registered r s (share_server world net master r guard srv (s, w))
  unfolding share_server offers
  share-Registers r guard srv s w e =
      elim (Result-cases (validate_service_specs r.service.spec srv.service.spec)) [
        | inl (u, fits) ↦
            rw (fits, share_server) (inr (λ key. refl, (srv.service.spec, rw (e) refl, fits)))
        | inr (error, fails) ↦ rw (fails, share_server) (inl (λ key. refl))
      ]

  register-Registers :
      (r : ServiceRegistration) (s : State) (w : W)
      → Registered r s (register_service world net master r (s, w))
  unfolding register_service server_at make_server
  register-Registers r s w = found (lookup r.service.name s.servers) refl
    where
      joined :
          (guard : ℕ) (srv : ServiceProvider) (b : Bool)
          → lookup r.service.name s.servers ≡ some (guard, srv)
          → Registered r s (
              (if b then share_server world net master r guard srv else (do
                Service.modify (λ s'. record s' { servers = remove r.service.name s'.servers })
                make_server world net master r))
                (s, w))
      joined guard srv true e = share-Registers r guard srv s w e
      joined guard srv false e =
          Made-Registers r s (record s { servers = remove r.service.name s.servers }) _
            (inr (remove-Withdraws r.service.name s))
            (make_server-Made r (record s { servers = remove r.service.name s.servers }) w)

      found :
          (o : Option (ℕ × ServiceProvider))
          → lookup r.service.name s.servers ≡ o
          → Registered r s (server_at world net master r s.server_guards o (s, w))
      found none e = Made-Registers r s s _ (inl (λ key. refl)) (make_server-Made r s w)
      found (some (guard, srv)) e = joined guard srv (is_alive guard s.server_guards) e

  register_client-servers :
      (r : Service.ClientRegistration) (s : State) (w : W)
      → (register_client world net master r (s, w)).1.0.servers ≡ s.servers
  unfolding register_client share_client make_client enter_client client_at
  register_client-servers r s w = ground arith

  -- The actor refines the abstract state of the services on offer: whatever the message, the state and
  -- the master's answers, there is a reply, which the caller gets if it is still there, and whether or not it
  -- is, the offers change as the message with this reply may change them. A
  -- registration that succeeds adds its service, or keeps the offers among which is one of that name
  -- and a compatible description; one that fails keeps the offers, or withdraws that name; a drop
  -- message for a service withdraws it; all other messages keep the offers.
  pub handle-Effect :
      (heard : Bool) (msg : ServiceActorMsg) (s : State) (w : W)
      → (reply : Reply dxr) × ((handle world net master true msg (s, w)).0 ≡ ok reply)
        × Effect msg reply (offers s) (offers (handle world net master heard msg (s, w)).1.0)
  unfolding handle unregister_client
  handle-Effect heard (Messages.register_client r) s w = (
    Messages.client (register_client world net master r (s, w)).0,
    refl,
    λ key. unfold offers in rw (register_client-servers r s w) refl,
  )
  handle-Effect heard (Messages.register_service r) s w =
      (server (register_service world net master r (s, w)).0, refl, register-Registers r s w)
  handle-Effect heard get_services s w =
      (Messages.services (Service.get_services s), refl, λ key. refl)
  handle-Effect heard (drop_client name) s w =
      (Messages.no_reply, refl, λ key. unfold offers in refl)
  handle-Effect heard (drop_service name) s w =
      (Messages.no_reply, refl, unregister-Withdraws name s w)
