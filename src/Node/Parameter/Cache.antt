-- ===== src/Node/Parameter/Cache.antt =====
-- The cache of the parameter actor: what it may hold, and what a cached read returns.
use rosrust_async.Node.Port.{MessagingErr}
use rosrust_async.Base.{
  Bool, ◌≡◌, refl, inl, inr, true, some, Str, str_eq_iff, str_eq_refl, Result, ok, err, arith,
  Result-cases_option,
}
use rosrust_async.Base.Dict.{
  lookup, contains, lookup-insert, lookup-remove, contains-add, contains-discard,
}
use rosrust_async.Xmlrpc.Dxr.{Dxr}
use rosrust_async.Xmlrpc.Master.{World, MasterClientError, RosMasterClient}
use rosrust_async.Xmlrpc.Master
use rosrust_async.Node.Parameter.{
  ParameterActorError, ParameterActorState, ParameterActorMsg, Reply, get_param, get_cached_param,
  delete_param, search_param, param_exists, set_param, update_cached_param, get_param_names, unit,
  get_cached, set_param_value, delete, update_cached, handle, ensure_subscribed, fetch,
  get_param_value, exists_param, search, param_names, cached_or_fetch,
}
use rosrust_async.Base.Action.{next}

-- A cached parameter is one that the node hears updates of.
abbrev pub Covered : {dxr : Dxr} → ParameterActorState dxr → Type 0
Covered {dxr} s =
    (name : Str) (v : dxr.Value)
    → lookup name s.param_cache ≡ some v
    → contains name s.subscribed_params ≡ true

module _ {dxr : Dxr} (world : World dxr) (master : RosMasterClient) where
  open dxr use {Value, same, empty_struct}
  open world use {W}

  abbrev State : Type 0
  State = ParameterActorState dxr

  set_param-Covered :
      (name : Str) (v : Value) (s : State) (w : W)
      → Covered s
      → Covered (set_param_value world master name v (s, w)).1.0
  unfolding set_param_value
  set_param-Covered name v s w h k x =
      ground (arith, h k x, lookup-insert name k v s.param_cache, str_eq_iff name k)

  update_cached-Covered :
      (name : Str) (v : Value) (s : State) (w : W)
      → Covered s
      → Covered (update_cached world master name v (s, w)).1.0
  unfolding update_cached
  update_cached-Covered name v s w h k x = ground (
    arith,
    h k x,
    lookup-insert name k v s.param_cache,
    lookup-remove name k s.param_cache,
    str_eq_iff name k,
  )

  fetch-Covered :
      (name : Str) (s : State) (w : W)
      → contains name s.subscribed_params ≡ true
      → Covered s
      → Covered (fetch world master name (s, w)).1.0
  unfolding fetch
  fetch-Covered name s w sub h k x =
      elim (Result-cases_option (Master.get_param_any world master name w).0) [
        | inl (v, e) ↦
            ground (arith, h k x, lookup-insert name k v s.param_cache, str_eq_iff name k)
        | inr (inl e) ↦ ground (arith, h k x)
        | inr (inr (error, e)) ↦ ground (arith, h k x)
      ]

  abbrev Subscribed : Str → Result (ParameterActorError dxr) (Unit {0}) × (State × W) → Type 0
  Subscribed name (r, (s, w)) = Covered s × (r ≡ ok tt → contains name s.subscribed_params ≡ true)

  ensure_subscribed-Covered :
      (name : Str) (s : State) (w : W)
      → Covered s
      → Subscribed name (ensure_subscribed world master name (s, w))
  unfolding ensure_subscribed
  ensure_subscribed-Covered name s w h = (
    λ k x. ground (arith, h k x, contains-add name k s.subscribed_params),
    ground (arith, contains-add name name s.subscribed_params, str_eq_refl name),
  )

  cached_or_fetch-Covered :
      (name : Str) (s : State) (w : W)
      → contains name s.subscribed_params ≡ true
      → Covered s
      → Covered (cached_or_fetch world master name (s, w)).1.0
  unfolding cached_or_fetch
  cached_or_fetch-Covered name s w sub c k x =
      ground (arith, fetch-Covered name s w sub c k x, c k x)

  get_cached-Covered :
      (name : Str) (s : State) (w : W)
      → Covered s
      → Covered (get_cached world master name (s, w)).1.0
  unfolding get_cached
  get_cached-Covered name s w h =
      go (ensure_subscribed world master name (s, w)) (ensure_subscribed-Covered name s w h)
    where
      go :
          (p : Result (ParameterActorError dxr) (Unit {0}) × (State × W))
          → Subscribed name p
          → Covered (next p (λ _. cached_or_fetch world master name)).1.0
      go (ok u, (s', w')) (c, sub) = cached_or_fetch-Covered name s' w' (sub refl) c
      go (err e, (s', w')) (c, sub) = c

  -- A deletion that succeeds leaves neither a cached value nor a subscription.
  delete-Covered :
      (name : Str) (s : State) (w : W)
      → Covered s
      → (delete world master name (s, w)).0 ≡ ok tt
      → Covered (delete world master name (s, w)).1.0
  unfolding delete
  delete-Covered name s w h e k x = ground (
    arith,
    h k x,
    lookup-remove name k s.param_cache,
    str_eq_iff name k,
    contains-discard name k s.subscribed_params,
  )

  -- A message whose deletion, if it is one, is carried out.
  abbrev pub Succeeds : ParameterActorMsg dxr → Result MessagingErr (Reply dxr) → Type 0
  Succeeds (delete_param name) r = r ≡ ok (unit (ok tt))
  Succeeds _ r = Unit {0}

  -- If only subscribed parameters are cached, it is so after any message, whether or not its caller is still
  -- there for the reply, where a deletion must succeed.
  pub handle-Covered :
      (heard : Bool) (msg : ParameterActorMsg dxr) (s : State) (w : W)
      → Covered s
      → Succeeds msg (handle world master true msg (s, w)).0
      → Covered (handle world master heard msg (s, w)).1.0
  unfolding handle get_param_value exists_param search param_names
  handle-Covered heard (get_param name) s w h e = h
  handle-Covered heard (get_cached_param name) s w h e = get_cached-Covered name s w h
  handle-Covered heard (delete_param name) s w h e = delete-Covered name s w h (ground arith)
  handle-Covered heard (search_param name) s w h e = h
  handle-Covered heard (param_exists name) s w h e = h
  handle-Covered heard (set_param name v) s w h e = set_param-Covered name v s w h
  handle-Covered heard (update_cached_param name v) s w h e = update_cached-Covered name v s w h
  handle-Covered heard get_param_names s w h e = h
