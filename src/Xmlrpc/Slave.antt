-- ===== src/Xmlrpc/Slave.antt =====
-- The client of a node's own API: rosrust-async/src/xmlrpc/slave.rs. What the node at a URL answers is
-- the parameter `call_at`, as `call_raw` is for the master.
use rosrust_async.Base.{
  ℕ, if◌then◌else◌, Option, none, some, List, [], ◌∷◌, Str, codes, Result, ok, err, map_err,
}
use rosrust_async.Base.Action.{Action}
use rosrust_async.Xmlrpc.Dxr.{Dxr}
use rosrust_async.Xmlrpc.Protocol.{server_error, ClientError, api, dxr_error}

pub data SlaveClientError (dxr : Dxr) : Type 0 where
  dxr_failure : dxr.DxrError → SlaveClientError dxr
  client : ClientError dxr → SlaveClientError dxr

abbrev pub CallAt : Dxr → Type 0 → Type 0
CallAt dxr W = Str → List dxr.Value → Action W (ClientError dxr) dxr.Value

-- The URL is part of `call_raw`.
module _ {dxr : Dxr} {W : Type 0} (call_raw : CallAt dxr W) (caller_id : Str) where
  open dxr use {
    Value, DxrError, i4, from_text, from_texts, from_lists, to_i32, to_text, to_pairs, to_address,
    is_mismatch_0,
  }

  abbrev Answer : Type 0 → Type 0
  Answer A = Result (SlaveClientError dxr) A

  decode : {A : Type 0} → (Value → Result DxrError A) → Result (ClientError dxr) Value → Answer A
  decode d (ok value) = map_err dxr_failure (d value)
  decode d (err e) = err (client e)

  on_result : {A B : Type 0} → (A → B) → A × W → B × W
  on_result f (r, w) = (f r, w)

  unfoldable pub call :
      {A : Type 0}
      → (Value → Result DxrError A)
      → Str
      → List Value
      → Action W (SlaveClientError dxr) A
  unfolding decode on_result
  call d method params w = on_result (decode d) (call_raw method params w)

  ignore : {A : Type 0} → Answer A → Answer (Unit {0})
  ignore (ok a) = ok tt
  ignore (err e) = err e

  unfoldable pub get_master_uri : Action W (SlaveClientError dxr) Str
  get_master_uri = call to_text (codes "getMasterUri") (from_text caller_id ∷ [])

  unfoldable pub shutdown : Str → Action W (SlaveClientError dxr) (Unit {0})
  unfolding ignore on_result
  shutdown reason w =
      on_result ignore
        (call to_i32 (codes "shutdown") (from_text caller_id ∷ from_text reason ∷ []) w)

  unfoldable pub get_pid : Action W (SlaveClientError dxr) ℕ
  get_pid = call to_i32 (codes "getPid") (from_text caller_id ∷ [])

  unfoldable pub get_subscriptions : Action W (SlaveClientError dxr) (List (Str × Str))
  get_subscriptions = call to_pairs (codes "getSubscriptions") (from_text caller_id ∷ [])

  unfoldable pub get_publications : Action W (SlaveClientError dxr) (List (Str × Str))
  get_publications = call to_pairs (codes "getPublications") (from_text caller_id ∷ [])

  unfoldable pub param_update_any : Str → Value → Action W (SlaveClientError dxr) (Unit {0})
  unfolding ignore on_result
  param_update_any param_name value w = on_result ignore (
      call to_i32 (codes "paramUpdate") (from_text caller_id ∷ from_text param_name ∷ value ∷ []) w)

  unfoldable pub publisher_update : Str → List Str → Action W (SlaveClientError dxr) (Unit {0})
  unfolding ignore on_result
  publisher_update topic_name publishers w = on_result ignore (
      call to_i32 (codes "publisherUpdate")
        (from_text caller_id ∷ from_text topic_name ∷ from_texts publishers ∷ []) w)

  -- A server error, and a response that does not have the form of one, are no protocol.
  protocol_info : {A : Type 0} → Answer A → Answer (Option A)
  protocol_info (ok info) = ok (some info)
  protocol_info (err (client (api (server_error msg)))) = ok none
  protocol_info (err (client (dxr_error e))) =
      if is_mismatch_0 e then ok none else err (client (dxr_error e))
  protocol_info (err e) = err e

  -- At the type of the subscriber actor's call.
  unfoldable pub request_topic :
      Str → List (List Str) → Action W (SlaveClientError dxr) (Option (Str × Str × ℕ))
  unfolding protocol_info on_result
  request_topic topic_name protocols w = on_result protocol_info (
      call to_address (codes "requestTopic")
        (from_text caller_id ∷ from_text topic_name ∷ from_lists protocols ∷ []) w)
