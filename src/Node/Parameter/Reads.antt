-- ===== src/Node/Parameter/Reads.antt =====
-- What a cached read of the parameter actor returns: `get_cached_param`, `set_param`, `delete_param`
-- and `update_cached_param` of rosrust-async/src/node/actors/parameter.rs.
use rosrust_async.Base.{
  ◌&&◌, ◌≡◌, Bool, true, not, none, some, Str, str_eq, str_eq_refl, if◌then◌else◌, ok, err, arith,
}
use rosrust_async.Base.Dict.{
  lookup, contains, lookup-insert, lookup-remove, contains-add, contains-discard,
}
use rosrust_async.Xmlrpc.Dxr.{Dxr}
use rosrust_async.Xmlrpc.Master.{World, MasterClientError, RosMasterClient}
use rosrust_async.Xmlrpc.Master
use rosrust_async.Node.Parameter.{
  ParameterActorError, ParameterActorState, get_cached, set_param_value, delete, update_cached,
  ensure_subscribed, fetch, still_set, cached_or_fetch, subscribed,
}

module _ {dxr : Dxr} (world : World dxr) (master : RosMasterClient) where
  open dxr use {Value, same, empty_struct}
  open world use {W}

  abbrev State : Type 0
  State = ParameterActorState dxr

  -- A subscribed and cached parameter is read with no call and no change.
  get_cached_hit :
      (name : Str) (v : Value) (x : State × W)
      → contains name x.0.subscribed_params ≡ true
      → lookup name x.0.param_cache ≡ some v
      → get_cached world master name x ≡ (ok (some v), x)
  unfolding get_cached ensure_subscribed cached_or_fetch
  get_cached_hit name v x sub e = ground arith

  -- After a write of a subscribed parameter that succeeds, a cached read returns the value
  -- written, and changes neither the state nor the world.
  pub get_cached-set_param :
      (name : Str) (v : Value) (s : State) (w : W)
      → contains name s.subscribed_params ≡ true
      → (set_param_value world master name v (s, w)).0 ≡ ok tt
      → get_cached world master name (set_param_value world master name v (s, w)).1
        ≡ (ok (some v), (set_param_value world master name v (s, w)).1)
  get_cached-set_param name v s w h e =
      get_cached_hit name v (set_param_value world master name v (s, w)).1
        (unfold set_param_value in ground arith)
        (unfold set_param_value in
          ground (arith, lookup-insert name name v s.param_cache, str_eq_refl name))

  abbrev Known : Str → Value → State → Type 0
  Known name v s = (contains name s.subscribed_params ≡ true) × (lookup name s.param_cache ≡ some v)

  fetch-Known :
      (name : Str) (v : Value) (s : State) (w : W)
      → contains name s.subscribed_params ≡ true
      → (fetch world master name (s, w)).0 ≡ ok (some v)
      → Known name v (fetch world master name (s, w)).1.0
  unfolding fetch
  fetch-Known name v s w sub e =
      ground (arith, lookup-insert name name v s.param_cache, str_eq_refl name)

  cached_or_fetch-Known :
      (name : Str) (v : Value) (s : State) (w : W)
      → contains name s.subscribed_params ≡ true
      → (cached_or_fetch world master name (s, w)).0 ≡ ok (some v)
      → Known name v (cached_or_fetch world master name (s, w)).1.0
  unfolding cached_or_fetch
  cached_or_fetch-Known name v s w sub e = ground (arith, fetch-Known name v s w sub)

  get_cached-Known :
      (name : Str) (v : Value) (s : State) (w : W)
      → (get_cached world master name (s, w)).0 ≡ ok (some v)
      → Known name v (get_cached world master name (s, w)).1.0
  unfolding get_cached ensure_subscribed
  get_cached-Known name v s w =
      let w' = (Master.subscribe_param_any world master name w).1 in
      let s' = subscribed world master name s in
      λ e. ground (
        arith,
        cached_or_fetch-Known name v s w,
        cached_or_fetch-Known name v s' w',
        contains-add name name s.subscribed_params,
        str_eq_refl name,
      )

  -- Once a cached read has returned a value, the next one returns the same and changes neither the
  -- state nor the world.
  pub get_cached-get_cached :
      (name : Str) (v : Value) (s : State) (w : W)
      → (get_cached world master name (s, w)).0 ≡ ok (some v)
      → get_cached world master name (get_cached world master name (s, w)).1
        ≡ (ok (some v), (get_cached world master name (s, w)).1)
  get_cached-get_cached name v s w e =
      let (sub, hit) = get_cached-Known name v s w e in
      get_cached_hit name v (get_cached world master name (s, w)).1 sub hit

  -- A deletion of a subscribed and cached parameter fails, and the next subscription succeeds with
  -- any value: then a cached read after the deletion returns the old cached value, not the one
  -- that the master gives.
  pub get_cached-delete_failed :
      (name : Str) (v u : Value) (s : State) (w : W) {e : ParameterActorError dxr}
      → contains name s.subscribed_params ≡ true
      → lookup name s.param_cache ≡ some v
      → (delete world master name (s, w)).0 ≡ err e
      → (Master.subscribe_param_any world master name (delete world master name (s, w)).1.1).0
        ≡ ok u
      → (get_cached world master name (delete world master name (s, w)).1).0 ≡ ok (some v)
  unfolding get_cached ensure_subscribed cached_or_fetch delete
  get_cached-delete_failed name v u s w sub hit fails again =
      ground (arith, contains-discard name name s.subscribed_params, str_eq_refl name)

  -- Where the master would answer `set` on whether the parameter exists, an update succeeds, and
  -- then: a subscribed parameter has the new value, or none if the value is the empty struct and
  -- the parameter does not exist; all other parameters, and all if it is not subscribed, are as
  -- before.
  pub update_cached_effect :
      (name key : Str) (v : Value) (s : State) (w : W) (set : Bool)
      → (Master.has_param world master name w).0 ≡ ok set
      → ((update_cached world master name v (s, w)).0 ≡ ok tt)
        × (lookup key (update_cached world master name v (s, w)).1.0.param_cache ≡ (
            if contains name s.subscribed_params && str_eq name key
            then if same v empty_struct && not set then none else some v
            else lookup key s.param_cache))
  unfolding update_cached still_set
  update_cached_effect name key v s w set e = (
    ground (arith, e),
    ground (arith, e, lookup-insert name key v s.param_cache, lookup-remove name key s.param_cache),
  )
