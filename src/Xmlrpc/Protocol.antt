-- ===== src/Xmlrpc/Protocol.antt =====
-- The ROS response format of rosrust-async/src/xmlrpc/protocol/mod.rs, and how the client of
-- protocol/client.rs reads a response.
use rosrust_async.Base.{
  ◌⊎◌, ℕ, ◌-◌, ◌^◌, ◌≡◌, ◌==◌, if◌then◌else◌, Str, codes, Result, ok, err, ◌>>=◌, map_err, ◌++◌,
  arith,
}
use rosrust_async.Xmlrpc.Dxr.{Dxr}

abbrev pub rpc_success : ℕ
rpc_success = 1

abbrev pub rpc_server_error : ℕ
rpc_server_error = 0

-- -1, as a bit pattern.
abbrev pub rpc_invalid_request : ℕ
rpc_invalid_request = 2 ^ 32 - 1

pub data ApiError : Type 0 where
  server_error : Str → ApiError
  invalid_request : Str → ApiError

module _ (dxr : Dxr) where
  open dxr use {Value, DxrError, i4, from_triple, to_triple, to_triple-from_triple, invalid_data}

  pub data ApiResponse : Type 0 where
    success : Str → Value → ApiResponse
    error : ApiError → ApiResponse

  -- A fault is the response that reports an error below the ROS format, by code and text.
  pub data ClientError : Type 0 where
    xml_parse : ClientError
    dxr_error : DxrError → ClientError
    net : ClientError
    rpc_fault : ℕ → Str → ClientError
    api : ApiError → ClientError

  unfoldable pub try_to_value : ApiResponse → Value
  try_to_value (success msg value) = from_triple (rpc_success, msg, value)
  try_to_value (error (server_error msg)) = from_triple (rpc_server_error, msg, i4 0)
  try_to_value (error (invalid_request msg)) = from_triple (rpc_invalid_request, msg, i4 0)

  from_status : (ℕ → Str) → ℕ → Str → Value → Result DxrError ApiResponse
  from_status show status_code msg value =
      if status_code == rpc_success
      then ok (success msg value)
      else if status_code == rpc_server_error
      then ok (error (server_error msg))
      else if status_code == rpc_invalid_request
      then ok (error (invalid_request msg))
      else err (invalid_data (codes "Invalid ROS status code: " ++ show status_code))

  -- `show` prints an `i32`.
  unfoldable pub try_from_value : (ℕ → Str) → Value → Result DxrError ApiResponse
  unfolding from_status
  try_from_value show value = do
    (status_code, msg, value') ← to_triple value
    from_status show status_code msg value'

  -- What the XML of a response stands for: a fault, whose content may be malformed, a value, or
  -- neither.
  pub data Response : Type 0 where
    fault : Result DxrError (ℕ × Str) → Response
    method : Value → Response
    malformed : Response

  outcome : ApiResponse → Result ClientError Value
  outcome (success msg value) = ok value
  outcome (error e) = err (api e)

  unfoldable pub response_to_result : (ℕ → Str) → Response → Result ClientError Value
  unfolding try_from_value outcome
  response_to_result show (fault (ok (code, msg))) = err (rpc_fault code msg)
  response_to_result show (fault (err e)) = err (dxr_error e)
  response_to_result show malformed = err xml_parse
  response_to_result show (method value) = map_err dxr_error (try_from_value show value) >>= outcome

  -- The client gets the value that a handler answered with, or the error that it answered with;
  -- of a value with some status code, the code is one of the three, or the client gets an error of
  -- the conversion that names the code.
  pub response_to_result-try_to_value :
      (show : ℕ → Str) (msg : Str) (value : Value) (e : ApiError) (code : ℕ)
      → (response_to_result show (method (try_to_value (success msg value))) ≡ ok value)
        × (response_to_result show (method (try_to_value (error e))) ≡ err (api e))
        × ((code ≡ rpc_success)
            ⊎ (code ≡ rpc_server_error)
            ⊎ (code ≡ rpc_invalid_request)
            ⊎ (response_to_result show (method (from_triple (code, msg, value)))
                ≡ err (dxr_error (invalid_data (codes "Invalid ROS status code: " ++ show code)))))
  unfolding response_to_result try_to_value
  response_to_result-try_to_value show msg value e code = (
    rw (response_to_result, try_from_value, to_triple-from_triple (rpc_success, msg, value)),
    errors e,
    others,
  )
    where
      errors :
          (e : ApiError) → response_to_result show (method (try_to_value (error e))) ≡ err (api e)
      errors (server_error m) =
          rw (response_to_result, try_from_value, to_triple-from_triple (rpc_server_error, m, i4 0))
      errors (invalid_request m) =
          rw (
            response_to_result,
            try_from_value,
            to_triple-from_triple (rpc_invalid_request, m, i4 0),
          )

      others :
          (code ≡ rpc_success)
          ⊎ (code ≡ rpc_server_error)
          ⊎ (code ≡ rpc_invalid_request)
          ⊎ (response_to_result show (method (from_triple (code, msg, value)))
              ≡ err (dxr_error (invalid_data (codes "Invalid ROS status code: " ++ show code))))
      others =
          rw (response_to_result, try_from_value, to_triple-from_triple (code, msg, value))
            (ground arith)
