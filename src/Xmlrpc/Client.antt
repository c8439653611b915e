-- ===== src/Xmlrpc/Client.antt =====
-- The XML-RPC client of rosrust-async/src/xmlrpc/protocol/client.rs. The XML of dxr and the HTTP exchange of
-- reqwest are parameters.
use rosrust_async.Base.{ℕ, List, [], ◌∷◌, ◌++◌, Str, codes, Result, ok, err, map_err}
use rosrust_async.Base.Action.{Action, ◌>>=◌, from_result, map_error}
use rosrust_async.Xmlrpc.Dxr.{Dxr}
use rosrust_async.Xmlrpc.Protocol.{Response, ClientError, dxr_error, response_to_result}

-- `serialize_xml` of a call, with the text of its error; the reading of a response; and a request with a body,
-- which gives the text of the response whatever its status, or an error of the network.
pub record Transport (dxr : Dxr) (W : Type 0) : Type 0 where
  pub serialize_call : Str → List dxr.Value → Result Str Str
  pub deserialize_response : Str → Response dxr
  pub post : Str → Action W (Unit {0}) Str

module _ {dxr : Dxr} {W : Type 0} (transport : Transport dxr W) (show : ℕ → Str) where
  abbrev pub declared : Str → Str
  declared xml = codes "<?xml version=\"1.0\"?>" ++ ((10 ∷ []) ++ (xml ++ (10 ∷ [])))

  body_of : Result Str Str → Result dxr.DxrError Str
  body_of (ok xml) = ok (declared xml)
  body_of (err e) = err (dxr.invalid_data e)

  unfoldable pub request_to_body : Str → List dxr.Value → Result dxr.DxrError Str
  unfolding body_of
  request_to_body name values = body_of (transport.serialize_call name values)

  unfoldable pub call_raw : Str → List dxr.Value → Action W (ClientError dxr) dxr.Value
  unfolding request_to_body
  call_raw name values = do
    body ← from_result (map_err dxr_error (request_to_body name values))
    raw_response ← map_error (λ _. ClientError.net) (transport.post body)
    from_result (response_to_result dxr show (transport.deserialize_response raw_response))
