-- ===== src/Node/Handle/Parameters.antt =====
-- The calls of a node's handle about parameters: rosrust-async/src/node/mod.rs. A type's conversions from and
-- to a value are code of dxr, parameters.
use rosrust_async.Base.{Bool, Option, none, some, List, Str, Result, ok, err, map_err}
use rosrust_async.Base.Action.{◌>>=◌, from_result}
use rosrust_async.Tcpros.Net.{Net}
use rosrust_async.Xmlrpc.Dxr.{Dxr}
use rosrust_async.Xmlrpc.Master.{World}
use rosrust_async.Node.Publisher.{Host}
use rosrust_async.Node.Subscriber.{Peers}
use rosrust_async.Node.Parameter as Parameters
use rosrust_async.Node.Handle.{
  NodeError, dxr_failure, NodeInfo, master_client, Call, ask_parameter, asked, replied,
}

module _ {dxr : Dxr} (world : World dxr) (net : Net world.W) (host : Host world.W)
    (peers : Peers dxr world.W) (node : NodeInfo) (call_error : Str) where
  transposed : {T : Type 0} → Result dxr.DxrError T → Result (NodeError dxr) (Option T)
  transposed (ok t) = ok (some t)
  transposed (err e) = err (dxr_failure e)

  -- `raw_param.map(|param| T::try_from_value(&param)).transpose()?`
  converted :
      {T : Type 0}
      → (dxr.Value → Result dxr.DxrError T)
      → Option dxr.Value
      → Result (NodeError dxr) (Option T)
  converted try_from_value none = ok none
  converted try_from_value (some v) = transposed (try_from_value v)

  unfoldable pub get_param :
      {T : Type 0}
      → (dxr.Value → Result dxr.DxrError T)
      → Str
      → Call world net host peers node call_error (Option T)
  unfolding ask_parameter asked replied converted transposed
  get_param try_from_value name = do
    raw_param ←
        ask_parameter world net host peers node call_error
          (Parameters.get_param_value world (master_client node) name)
    from_result (converted try_from_value raw_param)

  unfoldable pub get_param_cached :
      {T : Type 0}
      → (dxr.Value → Result dxr.DxrError T)
      → Str
      → Call world net host peers node call_error (Option T)
  unfolding ask_parameter asked replied converted transposed
  get_param_cached try_from_value name = do
    raw_param ←
        ask_parameter world net host peers node call_error
          (Parameters.get_cached world (master_client node) name)
    from_result (converted try_from_value raw_param)

  unfoldable pub set_param :
      {T : Type 0}
      → (T → Result dxr.DxrError dxr.Value)
      → Str
      → T
      → Call world net host peers node call_error (Unit {0})
  unfolding ask_parameter asked replied
  set_param try_to_value name t = do
    v ← from_result (map_err dxr_failure (try_to_value t))
    ask_parameter world net host peers node call_error
        (Parameters.set_param_value world (master_client node) name v)

  unfoldable pub delete_param : Str → Call world net host peers node call_error (Unit {0})
  unfolding ask_parameter asked replied
  delete_param name =
      ask_parameter world net host peers node call_error
        (Parameters.delete world (master_client node) name)

  unfoldable pub has_param : Str → Call world net host peers node call_error Bool
  unfolding ask_parameter asked replied
  has_param name =
      ask_parameter world net host peers node call_error
        (Parameters.exists_param world (master_client node) name)

  unfoldable pub search_param : Str → Call world net host peers node call_error (Option Str)
  unfolding ask_parameter asked replied
  search_param name =
      ask_parameter world net host peers node call_error
        (Parameters.search world (master_client node) name)

  unfoldable pub get_param_names : Call world net host peers node call_error (List Str)
  unfolding ask_parameter asked replied
  get_param_names =
      ask_parameter world net host peers node call_error
        (Parameters.param_names world (master_client node))
