-- ===== src/Node/Handle/Cached.antt =====
-- Parameters that are set and read by a node's handle: rosrust-async/src/node/mod.rs over
-- node/actors/parameter.rs.
use rosrust_async.Base.{◌≡◌, refl, true, some, Str, Result, ok, map_err-ok, arith}
use rosrust_async.Base.Dict.{contains}
use rosrust_async.Tcpros.Net.{Net}
use rosrust_async.Xmlrpc.Dxr.{Dxr}
use rosrust_async.Xmlrpc.Master.{World}
use rosrust_async.Node.Publisher.{Host}
use rosrust_async.Node.Subscriber.{Peers}
use rosrust_async.Node.Parameter.{ParameterActorState, set_param_value}
use rosrust_async.Node.Parameter.Reads.{get_cached-set_param}
use rosrust_async.Node.Handle.{NodeInfo, ActorRefs, parameter_actor, master_client}
use rosrust_async.Node.Handle.Parameters.{set_param, get_param_cached}

module _ {dxr : Dxr} (world : World dxr) (net : Net world.W) (host : Host world.W)
    (peers : Peers dxr world.W) (node : NodeInfo) (call_error : Str) where
  open world use {W}

  -- While the parameter actor runs, what is set under a name whose updates the node hears is what a
  -- cached read returns next: of a value that is converted and that the conversion back restores,
  -- if `set_param` succeeds, then `get_param_cached` returns the value, asks nobody, and changes
  -- nothing.
  pub set_param-get_param_cached :
      {T : Type 0} (try_to_value : T → Result dxr.DxrError dxr.Value)
      (try_from_value : dxr.Value → Result dxr.DxrError T) (name : Str) (t : T) (v : dxr.Value)
      (actors : ActorRefs dxr) (s : ParameterActorState dxr) (w : W)
      → try_to_value t ≡ ok v
      → try_from_value v ≡ ok t
      → actors.param_actor ≡ some s
      → contains name s.subscribed_params ≡ true
      → (set_param world net host peers node call_error try_to_value name t (actors, w)).0 ≡ ok tt
      → let x =
          (set_param world net host peers node call_error try_to_value name t (actors, w)).1 in
        get_param_cached world net host peers node call_error try_from_value name x
        ≡ (ok (some t), x)
  unfolding set_param get_param_cached
  set_param-get_param_cached try_to_value try_from_value name t v actors s w to from runs hears
        done =
      let was_set =
        map_err-ok parameter_actor tt (set_param_value world (master_client node) name v (s, w)).0
          (ground (arith, to, runs, done)) in
      let got = get_cached-set_param world (master_client node) name v s w hears was_set in
      rw (to, runs, got, from) refl
