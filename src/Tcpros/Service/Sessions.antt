-- ===== src/Tcpros/Service/Sessions.antt =====
-- A client's whole session with a service, among others: `listener_task`, `handle_request` and `rpc_task` of
-- rosrust-async/src/tcpros/service/server.rs.
use rosrust_async.Base.{
  ◌≡◌, refl, Bool, true, false, List, [], ◌∷◌, ◌++◌, Str, All, Result, ok, err, append_assoc,
  append-nil,
}
use rosrust_async.Tcpros.Net.{Connection, connection, Fits, calls}
use rosrust_async.Tcpros.Spec.{Service}
use rosrust_async.Tcpros.Header.Defs.{
  ServiceClientHeader, ProbeRequestHeader, service_client_fields,
}
use rosrust_async.Tcpros.Header.Ser.{to_bytes}
use rosrust_async.Tcpros.Header.Visit.{Visitor}
use rosrust_async.Tcpros.Header.Derive.{Derives, IsHeader}
use rosrust_async.Tcpros.Header.Compat.{validate_client_compatibility}
use rosrust_async.Tcpros.Service.{ServiceProviderError, Handled, probed, spawned, rpc_task}
use rosrust_async.Tcpros.Service.Rpc.{rounds, responses, persistent_calls}
use rosrust_async.Tcpros.Service.Handshake.{handle_request_client}
use rosrust_async.Tcpros.Service.Listener.{
  ListenerEvent, cancelled, silent, accepted, handle, listener_task, tasks_of,
}

-- The loop is not cancelled in these rounds, and no client keeps it waiting for a header.
abbrev pub goes_on : List ListenerEvent → Bool
goes_on [] = true
goes_on (cancelled ∷ events) = false
goes_on (silent ∷ events) = false
goes_on (accepted connection ∷ events) = goes_on events

module _ {client_required : List Str} {client_visitor : Visitor ServiceClientHeader}
    (probe_visitor : Visitor ProbeRequestHeader)
    (dc : Derives service_client_fields client_required client_visitor) (service : Service)
    (pb sb : Str) where
  abbrev pub tasks : List ListenerEvent → List (ServiceClientHeader × Connection)
  tasks events =
      tasks_of client_visitor probe_visitor service pb sb
        (listener_task client_visitor probe_visitor service pb sb events)

  tasks_of-append :
      (r : Result ServiceProviderError Handled) (rest : List (Result ServiceProviderError Handled))
      → tasks_of client_visitor probe_visitor service pb sb (r ∷ rest)
        ≡ tasks_of client_visitor probe_visitor service pb sb (r ∷ [])
          ++ tasks_of client_visitor probe_visitor service pb sb rest
  unfolding tasks_of
  tasks_of-append (err e) rest = refl
  tasks_of-append (ok (probed c)) rest = refl
  tasks_of-append (ok (spawned h c)) rest = refl

  tasks-append :
      (before after : List ListenerEvent)
      → goes_on before ≡ true
      → tasks (before ++ after) ≡ tasks before ++ tasks after
  unfolding listener_task tasks_of
  tasks-append [] after on = refl
  tasks-append (cancelled ∷ before) after on = absurd (cc)
  tasks-append (silent ∷ before) after on = absurd (cc)
  tasks-append (accepted (err e) ∷ before) after on = tasks-append before after on
  tasks-append (accepted (ok c) ∷ before) after on =
      let r = handle client_visitor probe_visitor service pb sb c in
      let task = listener_task client_visitor probe_visitor service pb sb in
      rw
        (
          tasks_of-append r (task (before ++ after)),
          tasks_of-append r (task before),
          tasks-append before after on,
          append_assoc (tasks_of client_visitor probe_visitor service pb sb (r ∷ [])) (tasks before)
              (tasks after),
        )
        refl

  -- The loop is not cancelled before a client, and each client that connects before it sends a whole frame
  -- for its header, whatever is in it, or closes, so that none keeps the loop waiting. What clients send
  -- after it, or whether they send anything, does not matter. The client itself has a compatible header
  -- that can be written, asks for a persistent connection and takes what it is sent. Then one task is
  -- spawned for it, in its turn, and the tasks of the others are those that they would have without
  -- it. For requests that fit 32 bits the task answers each, in order: the client is sent the server's
  -- header and then the responses of the callback, and nothing else.
  pub listener_task-rpc_task :
      (callback : Str → Result Str Str) (encode : Str → Str) (h : ServiceClientHeader) (bytes : Str)
      (requests : List Str) (before after : List ListenerEvent)
      → IsHeader (service_client_fields h)
      → to_bytes (service_client_fields h) ≡ ok bytes
      → validate_client_compatibility service h ≡ ok tt
      → h.persistent ≡ true
      → All Fits requests
      → goes_on before ≡ true
      → (tasks (before ++ (accepted (ok (connection (bytes ++ calls requests) [])) ∷ after))
          ≡ tasks before ++ ((h, connection (calls requests) sb) ∷ tasks after))
        × (rpc_task callback encode (rounds requests) h.persistent (connection (calls requests) sb)
            ≡ ok (connection [] (sb ++ responses callback encode requests)))
  unfolding listener_task tasks_of
  listener_task-rpc_task callback encode h bytes requests before after w e compatible keep fits on =
      let handled =
        handle_request_client probe_visitor dc h bytes (calls requests) [] service pb sb w e in
      let served = persistent_calls callback encode requests [] sb fits in
      (
        rw
            (
              tasks-append before (accepted (ok (connection (bytes ++ calls requests) [])) ∷ after)
                  on,
              handled,
              compatible,
            )
            refl,
        rw keep (rw (append-nil (calls requests)) at served),
      )
