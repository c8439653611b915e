-- ===== src/Tcpros/Service/Rpc.antt =====
-- The calls of a client: `rpc_task` of rosrust-async/src/tcpros/service/server.rs.
use rosrust_async.Base.{
  ◌≡◌, refl, true, false, List, [], ◌∷◌, ◌++◌, Str, All, Result, ok, err, append_assoc, append-nil,
  ◌∙◌, ap,
}
use rosrust_async.Tcpros.Bytes.{frame, read_tcpros_frame-frame}
use rosrust_async.Tcpros.Net.{write_all, connection, Fits, calls}
use rosrust_async.Tcpros.Service.{
  RpcEvent, data_ready, reply, serve, rpc_task, rpc_success, rpc_failure,
}

-- A round of the task for each request.
abbrev pub rounds : List Str → List RpcEvent
rounds [] = []
rounds (request ∷ rest) = data_ready ∷ rounds rest

module _ (callback : Str → Result Str Str) (encode : Str → Str) where
  -- What goes back for the outcome of a call.
  abbrev pub response_bytes : Result Str Str → Str
  response_bytes (ok response) = rpc_success ++ response
  response_bytes (err e) = rpc_failure ++ encode e

  -- The responses to some requests, in their order. The callback gets a request with its length.
  abbrev pub responses : List Str → Str
  responses [] = []
  responses (request ∷ rest) = response_bytes (callback (frame request)) ++ responses rest

  reply-response_bytes :
      (r : Result Str Str) (incoming sent : Str)
      → reply callback encode r (connection incoming sent)
        ≡ ok (connection incoming (sent ++ response_bytes r))
  unfolding reply write_all
  reply-response_bytes (ok response) incoming sent =
      ap (λ (s : Str). ok (connection incoming s)) (append_assoc sent rpc_success response)
  reply-response_bytes (err e) incoming sent =
      ap (λ (s : Str). ok (connection incoming s)) (append_assoc sent rpc_failure (encode e))

  serve-frame :
      (request incoming sent : Str)
      → Fits request
      → serve callback encode (connection (frame request ++ incoming) sent)
        ≡ ok (connection incoming (sent ++ response_bytes (callback (frame request))))
  unfolding serve
  serve-frame request incoming sent h =
      rw (read_tcpros_frame-frame request incoming h)
        (reply-response_bytes (callback (frame request)) incoming sent)

  pub persistent_calls :
      (requests : List Str) (rest sent : Str)
      → All Fits requests
      → rpc_task callback encode (rounds requests) true (connection (calls requests ++ rest) sent)
        ≡ ok (connection rest (sent ++ responses requests))
  unfolding rpc_task
  persistent_calls [] rest sent h = rw (append-nil sent) refl
  persistent_calls (request ∷ requests) rest sent (h, hs) =
      rw
        (
          append_assoc (frame request) (calls requests) rest,
          serve-frame request (calls requests ++ rest) sent h,
        )
        (persistent_calls requests rest (sent ++ response_bytes (callback (frame request))) hs
          ∙ ap (λ (s : Str). ok (connection rest s))
              (append_assoc sent (response_bytes (callback (frame request))) (responses requests)))

  -- For framed requests that each fit 32 bits, a peer that takes the responses, and a round of the
  -- task for each request: on a persistent connection every request is answered, in order, by the
  -- callback's response or by the text of its error, and what follows the requests is left;
  -- otherwise one request is answered, and the requests after it are left.
  pub rpc_task-calls :
      (request : Str) (requests : List Str) (rest sent : Str)
      → Fits request
      → All Fits requests
      → (rpc_task callback encode
            (rounds (request ∷ requests))
            true
            (connection (calls (request ∷ requests) ++ rest) sent)
          ≡ ok (connection rest (sent ++ responses (request ∷ requests))))
        × (rpc_task callback encode
              (rounds (request ∷ requests))
              false
              (connection (calls (request ∷ requests) ++ rest) sent)
            ≡ ok (
                connection
                  (calls requests ++ rest)
                  (sent ++ response_bytes (callback (frame request)))))
  unfolding rpc_task
  rpc_task-calls request requests rest sent h hs = (
    persistent_calls (request ∷ requests) rest sent (h, hs),
    rw (append_assoc (frame request) (calls requests) rest)
        (serve-frame request (calls requests ++ rest) sent h),
  )
