-- ===== src/Node/Api.antt =====
-- The XML-RPC API of a node: rosrust-async/src/node/api. The actors that a handler calls stand in the
-- node's state, none for one that has stopped, and a message that is cast waits in its mailbox.
pub mod Handlers
pub mod Server
pub mod Calls
mod Wire
mod Tests
use rosrust_async.Base.{
  ℕ, ◌≡◌, Bool, Option, List, [], ◌∷◌, Str, codes, ◌++◌, Result, ok, err, map_err,
}
use rosrust_async.Base.Action.{Action}
use rosrust_async.Xmlrpc.Dxr.{Dxr}
use rosrust_async.Xmlrpc.Protocol.{ApiError, invalid_request, ApiResponse, success}
use rosrust_async.Node.Publisher.{PublisherActorState}
use rosrust_async.Node.Subscriber.{SubscriberActorState}

pub data HandlerError (dxr : Dxr) : Type 0 where
  dxr_failure : dxr.DxrError → HandlerError dxr
  api : ApiError → HandlerError dxr

pub record HandlerResponse (dxr : Dxr) : Type 0 where
  pub msg : Str
  pub data_ : dxr.Value

-- `TryFromParams` of the types that the handlers name. A list comes back as it was sent.
pub record Params (dxr : Dxr) : Type 0 where
  pub caller : List dxr.Value → Result dxr.DxrError Str
  pub caller_text : List dxr.Value → Result dxr.DxrError (Str × Str)
  pub caller_text_value : List dxr.Value → Result dxr.DxrError (Str × Str × dxr.Value)
  pub caller_text_texts : List dxr.Value → Result dxr.DxrError (Str × Str × List Str)
  pub caller_text_texts-from_texts :
      (caller text : Str) (texts : List Str)
      → caller_text_texts (dxr.from_text caller ∷ dxr.from_text text ∷ dxr.from_texts texts ∷ [])
        ≡ ok (caller, text, texts)
  pub caller_text_lists : List dxr.Value → Result dxr.DxrError (Str × Str × List (List Str))
  pub caller_text_lists-from_lists :
      (caller text : Str) (lists : List (List Str))
      → caller_text_lists (dxr.from_text caller ∷ dxr.from_text text ∷ dxr.from_lists lists ∷ [])
        ≡ ok (caller, text, lists)

-- The text of an error of ractor.
pub record NodeState (dxr : Dxr) : Type 0 where
  pub master_url : Str
  pub hostname : Str
  pub pid : ℕ
  pub shutdown_reason : Option Str
  pub pub_actor : Option PublisherActorState
  pub sub_actor : Option SubscriberActorState
  pub param_actor_runs : Bool
  pub publisher_updates : List (Str × List Str)
  pub param_updates : List (Str × dxr.Value)
  pub actor_error : Str

abbrev pub Handler : Dxr → Type 0
Handler dxr = List dxr.Value → Action (NodeState dxr) (HandlerError dxr) (HandlerResponse dxr)

-- `get_params`, with the error as the handler's.
unfoldable pub get_params :
    {dxr : Dxr} {R : Type 0}
    → (List dxr.Value → Result dxr.DxrError R)
    → List dxr.Value
    → Result (HandlerError dxr) R
get_params {dxr = dxr} try_from_params values =
    map_err (λ e. api (invalid_request (codes "Invalid parameters: " ++ dxr.show_error e)))
      (try_from_params values)

unfoldable pub into_response : {dxr : Dxr} → HandlerResponse dxr → ApiResponse dxr
into_response value = success value.msg value.data_
