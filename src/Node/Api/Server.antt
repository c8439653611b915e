-- ===== src/Node/Api/Server.antt =====
-- The server of the API: rosrust-async/src/node/api/server.rs. dxr's XML is a parameter.
use rosrust_async.Base.{
  ℕ, ◌^◌, ◌-◌, ◌≡◌, Option, none, some, List, Str, codes, ◌++◌, Result, ok, err,
}
use rosrust_async.Base.Dict.{lookup, insert}
use rosrust_async.Xmlrpc.Dxr.{Dxr}
use rosrust_async.Xmlrpc.Protocol.{
  server_error, ApiResponse, error, try_to_value, Response, fault, method,
}
use rosrust_async.Node.Api.{
  HandlerError, dxr_failure, api, HandlerResponse, NodeState, Handler, into_response,
}

-- -1, as a bit pattern.
abbrev pub default_fault_code : ℕ
default_fault_code = 2 ^ 32 - 1

-- The two kinds of responses.
pub data Reply (dxr : Dxr) : Type 0 where
  fault_reply : ℕ → Str → Reply dxr
  method_reply : dxr.Value → Reply dxr

-- What a client reads from a reply.
abbrev pub read_reply : {dxr : Dxr} → Reply dxr → Response dxr
read_reply (fault_reply code msg) = fault (ok (code, msg))
read_reply (method_reply value) = method value

-- XML of calls and responses, each read back as it was written.
pub record Xml (dxr : Dxr) : Type 1 where
  pub XmlError : Type 0
  pub show_xml : XmlError → Str
  pub call_text : Str → List dxr.Value → Str
  pub deserialize_call : Str → Result XmlError (Str × List dxr.Value)
  pub deserialize_call-call_text :
      (name : Str) (params : List dxr.Value)
      → deserialize_call (call_text name params) ≡ ok (name, params)
  pub serialize_xml : Reply dxr → Result XmlError Str
  pub deserialize_response : Str → Response dxr
  pub deserialize_response-serialize_xml :
      (reply : Reply dxr) (text : Str)
      → serialize_xml reply ≡ ok text
      → deserialize_response text ≡ read_reply reply

abbrev pub HandlerMap : Dxr → Type 0
HandlerMap dxr = List (Str × Handler dxr)

abbrev pub add_method : {dxr : Dxr} → Str → Handler dxr → HandlerMap dxr → HandlerMap dxr
add_method name handler handlers = insert name handler handlers

module _ {dxr : Dxr} (xml : Xml dxr) where
  -- The status code and the body; the header is the same for all responses.
  unfoldable pub made : Result xml.XmlError Str → ℕ × Str
  made (ok text) = (200, text)
  made (err e) = (500, xml.show_xml e)

  unfoldable pub make_response : Reply dxr → ℕ × Str
  unfolding made
  make_response reply = made (xml.serialize_xml reply)

  abbrev fault_response : ℕ → Str → ℕ × Str
  fault_response code msg = make_response (fault_reply code msg)

  abbrev Answered : Type 0
  Answered = Result (HandlerError dxr) (HandlerResponse dxr)

  unfoldable pub api_response : Answered → ApiResponse dxr
  api_response (ok value) = into_response value
  api_response (err (api e)) = error e
  api_response (err (dxr_failure e)) =
      error (server_error (codes "Internal server error: " ++ dxr.show_error e))

  unfoldable pub finished : Answered × NodeState dxr → (ℕ × Str) × NodeState dxr
  unfolding api_response
  finished (result, node) =
      (make_response (method_reply (try_to_value dxr (api_response result))), node)

  unfoldable pub handle_with :
      Str → List dxr.Value → Option (Handler dxr) → NodeState dxr → (ℕ × Str) × NodeState dxr
  handle_with name params none node =
      (fault_response default_fault_code (codes "Unknown method: " ++ name), node)
  handle_with name params (some handler) node = finished (handler params node)

  unfoldable pub handle_call :
      HandlerMap dxr
      → Result xml.XmlError (Str × List dxr.Value)
      → NodeState dxr
      → (ℕ × Str) × NodeState dxr
  handle_call handlers (err e) node =
      (fault_response default_fault_code (codes "XML error: " ++ xml.show_xml e), node)
  handle_call handlers (ok (name, params)) node =
      handle_with name params (lookup name handlers) node

  unfoldable pub handle_rpc : HandlerMap dxr → Str → NodeState dxr → (ℕ × Str) × NodeState dxr
  unfolding handle_call handle_with finished api_response
  handle_rpc handlers body node = handle_call handlers (xml.deserialize_call body) node
