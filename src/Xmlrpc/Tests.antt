-- ===== src/Xmlrpc/Tests.antt =====
-- The response format and the client with the sample library.
use rosrust_async.Base.{ℕ, ◌≡◌, refl, [], ◌∷◌, Str, codes, ok, err}
use rosrust_async.Xmlrpc.Protocol.{
  ClientError, success, error, server_error, method, malformed, api, xml_parse, try_to_value,
  response_to_result,
}
use rosrust_async.Xmlrpc.Client.{Transport, call_raw}
use rosrust_async.Xmlrpc.Samples.{sample_dxr}

abbrev show : ℕ → Str
show n = n ∷ []

server_error_is_read :
    response_to_result sample_dxr show
      (method (try_to_value sample_dxr (error (server_error (codes "no")))))
    ≡ err (api (server_error (codes "no")))
unfolding response_to_result try_to_value
server_error_is_read = refl

-- One that answers every call with the same value, one without a network and one that answers no XML.
abbrev answering : Transport sample_dxr (Unit {0})
answering = record {
  serialize_call = λ name values. ok name;
  deserialize_response = λ text. method (try_to_value sample_dxr (success (codes "done") (5 ∷ [])));
  post = λ body w. (ok body, w);
}

call_raw_answered : call_raw answering show (codes "getPid") [] tt ≡ (ok (5 ∷ []), tt)
unfolding call_raw response_to_result try_to_value
call_raw_answered = refl

call_raw_cut_off :
    call_raw (record answering { post = λ body w. (err tt, w) }) show (codes "getPid") [] tt
    ≡ (err ClientError.net, tt)
unfolding call_raw
call_raw_cut_off = refl

call_raw_garbled :
    call_raw
      (record answering { deserialize_response = λ text. malformed })
      show
      (codes "getPid")
      []
      tt
    ≡ (err xml_parse, tt)
unfolding call_raw response_to_result
call_raw_garbled = refl
