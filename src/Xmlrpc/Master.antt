-- ===== src/Xmlrpc/Master.antt =====
-- The client of the ROS master: rosrust-async/src/xmlrpc/master.rs. What the master answers to a
-- method is a parameter, `call_raw` of protocol/client.rs over the state `W` of the world. The
-- parameters of a call are texts and values, whose conversion by dxr does not fail.
use rosrust_async.Base.{
  ℕ, Bool, Option, none, some, List, [], ◌∷◌, Str, codes, Result, ok, err, map_err,
}
use rosrust_async.Base.Action.{Action}
use rosrust_async.Xmlrpc.Dxr.{Dxr}
use rosrust_async.Xmlrpc.Protocol.{invalid_request, ClientError, api}

-- The world's answers.
pub record World (dxr : Dxr) : Type 1 where
  pub W : Type 0
  pub call_raw : Str → List dxr.Value → Action W (ClientError dxr) dxr.Value

pub data MasterClientError (dxr : Dxr) : Type 0 where
  dxr_failure : dxr.DxrError → MasterClientError dxr
  client : ClientError dxr → MasterClientError dxr

-- The URL of the master is part of `call_raw`.
pub record RosMasterClient : Type 0 where
  pub caller_id : Str
  pub caller_api : Str

module _ {dxr : Dxr} (world : World dxr) (c : RosMasterClient) where
  open dxr use {Value, DxrError, from_text, to_i32, to_bool, to_text, to_texts}
  open world use {W, call_raw}

  decode :
      {A : Type 0}
      → (Value → Result DxrError A)
      → Result (ClientError dxr) Value
      → Result (MasterClientError dxr) A
  decode d (ok value) = map_err dxr_failure (d value)
  decode d (err e) = err (client e)

  on_result : {A B : Type 0} → (A → B) → A × W → B × W
  on_result f (r, w) = (f r, w)

  unfoldable pub call :
      {A : Type 0}
      → (Value → Result DxrError A)
      → Str
      → List Value
      → Action W (MasterClientError dxr) A
  unfolding decode on_result
  call d method params w = on_result (decode d) (call_raw method params w)

  unit_of :
      {A : Type 0} → Result (MasterClientError dxr) A → Result (MasterClientError dxr) (Unit {0})
  unit_of (ok a) = ok tt
  unit_of (err e) = err e

  unfoldable pub register_service : Str → Str → Action W (MasterClientError dxr) (Unit {0})
  unfolding call unit_of
  register_service service_name service_api w = on_result unit_of (
      call to_i32 (codes "registerService")
        (from_text c.caller_id
          ∷ from_text service_name
          ∷ from_text service_api
          ∷ from_text c.caller_api
          ∷ [])
        w)

  unfoldable pub unregister_service : Str → Str → Action W (MasterClientError dxr) ℕ
  unfolding call
  unregister_service service_name service_api =
      call to_i32 (codes "unregisterService")
        (from_text c.caller_id ∷ from_text service_name ∷ from_text service_api ∷ [])

  unfoldable pub register_subscriber : Str → Str → Action W (MasterClientError dxr) (List Str)
  unfolding call
  register_subscriber topic_name topic_type = call to_texts (codes "registerSubscriber") (
      from_text c.caller_id
      ∷ from_text topic_name
      ∷ from_text topic_type
      ∷ from_text c.caller_api
      ∷ [])

  unfoldable pub unregister_subscriber : Str → Action W (MasterClientError dxr) ℕ
  unfolding call
  unregister_subscriber topic_name =
      call to_i32 (codes "unregisterSubscriber")
        (from_text c.caller_id ∷ from_text topic_name ∷ from_text c.caller_api ∷ [])

  unfoldable pub register_publisher : Str → Str → Action W (MasterClientError dxr) (List Str)
  unfolding call
  register_publisher topic_name topic_type = call to_texts (codes "registerPublisher") (
      from_text c.caller_id
      ∷ from_text topic_name
      ∷ from_text topic_type
      ∷ from_text c.caller_api
      ∷ [])

  unfoldable pub unregister_publisher : Str → Action W (MasterClientError dxr) ℕ
  unfolding call
  unregister_publisher topic_name =
      call to_i32 (codes "unregisterPublisher")
        (from_text c.caller_id ∷ from_text topic_name ∷ from_text c.caller_api ∷ [])

  unfoldable pub lookup_node : Str → Action W (MasterClientError dxr) Str
  unfolding call
  lookup_node node_name =
      call to_text (codes "lookupNode") (from_text c.caller_id ∷ from_text node_name ∷ [])

  unfoldable pub lookup_service : Str → Action W (MasterClientError dxr) Str
  unfolding call
  lookup_service service_name =
      call to_text (codes "lookupService") (from_text c.caller_id ∷ from_text service_name ∷ [])

  unfoldable pub get_uri : Action W (MasterClientError dxr) Str
  unfolding call
  get_uri = call to_text (codes "getUri") (from_text c.caller_id ∷ [])

  -- An invalid request is the answer for what is not set.
  if_set :
      {A : Type 0} → Result (MasterClientError dxr) A → Result (MasterClientError dxr) (Option A)
  if_set (ok a) = ok (some a)
  if_set (err (client (api (invalid_request m)))) = ok none
  if_set (err e) = err e

  unfoldable pub get_param_any : Str → Action W (MasterClientError dxr) (Option Value)
  unfolding call if_set
  get_param_any param_name w =
      on_result if_set
        (call ok (codes "getParam") (from_text c.caller_id ∷ from_text param_name ∷ []) w)

  unfoldable pub set_param_any : Str → Value → Action W (MasterClientError dxr) ℕ
  unfolding call
  set_param_any param_name value =
      call to_i32 (codes "setParam") (from_text c.caller_id ∷ from_text param_name ∷ value ∷ [])

  unfoldable pub delete_param : Str → Action W (MasterClientError dxr) ℕ
  unfolding call
  delete_param param_name =
      call to_i32 (codes "deleteParam") (from_text c.caller_id ∷ from_text param_name ∷ [])

  unfoldable pub search_param : Str → Action W (MasterClientError dxr) (Option Str)
  unfolding call if_set
  search_param param_name w =
      on_result if_set
        (call to_text (codes "searchParam") (from_text c.caller_id ∷ from_text param_name ∷ []) w)

  unfoldable pub subscribe_param_any : Str → Action W (MasterClientError dxr) Value
  unfolding call
  subscribe_param_any param_name =
      call ok (codes "subscribeParam")
        (from_text c.caller_id ∷ from_text c.caller_api ∷ from_text param_name ∷ [])

  unfoldable pub unsubscribe_param : Str → Action W (MasterClientError dxr) ℕ
  unfolding call
  unsubscribe_param param_name =
      call to_i32 (codes "unsubscribeParam")
        (from_text c.caller_id ∷ from_text c.caller_api ∷ from_text param_name ∷ [])

  unfoldable pub has_param : Str → Action W (MasterClientError dxr) Bool
  unfolding call
  has_param param_name =
      call to_bool (codes "hasParam") (from_text c.caller_id ∷ from_text param_name ∷ [])

  unfoldable pub get_param_names : Action W (MasterClientError dxr) (List Str)
  unfolding call
  get_param_names = call to_texts (codes "getParamNames") (from_text c.caller_id ∷ [])
