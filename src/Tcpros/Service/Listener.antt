-- ===== src/Tcpros/Service/Listener.antt =====
-- The loop that takes a service's clients: `listener_task` of rosrust-async/src/tcpros/service/server.rs. A
-- request's header is read within the loop, so each client is seen to before the next is taken, and one that
-- sends no whole header and does not close keeps the loop where it is.
use rosrust_async.Base.{List, [], ◌∷◌, Str, Result, ok, err}
use rosrust_async.Tcpros.Bytes.{IoError}
use rosrust_async.Tcpros.Net.{Connection}
use rosrust_async.Tcpros.Spec.{Service}
use rosrust_async.Tcpros.Header.Defs.{ServiceClientHeader, ProbeRequestHeader}
use rosrust_async.Tcpros.Header.Visit.{Visitor}
use rosrust_async.Tcpros.Service.{ServiceProviderError, Handled, probed, spawned, handle_request}

-- A round of the loop's `select!`: a connection that is taken sends a whole header, or closes before, or is
-- `silent`.
pub data ListenerEvent : Type 0 where
  cancelled silent : ListenerEvent
  accepted : Result IoError Connection → ListenerEvent

module _ (client_visitor : Visitor ServiceClientHeader) (probe_visitor : Visitor ProbeRequestHeader)
    (service : Service) (probe_header_bytes server_header_bytes : Str) where
  abbrev pub handle : Connection → Result ServiceProviderError Handled
  handle =
      handle_request client_visitor probe_visitor service probe_header_bytes server_header_bytes

  -- What comes of each connection that is taken, in order. An error is only logged. Nothing
  -- more is taken, not even the cancellation, while `handle_request` waits for a header.
  unfoldable pub listener_task : List ListenerEvent → List (Result ServiceProviderError Handled)
  listener_task [] = []
  listener_task (cancelled ∷ events) = []
  listener_task (silent ∷ events) = []
  listener_task (accepted (err e) ∷ events) = listener_task events
  listener_task (accepted (ok c) ∷ events) = handle c ∷ listener_task events

  -- The tasks that the loop has spawned, with the headers of their clients.
  unfoldable pub tasks_of :
      List (Result ServiceProviderError Handled) → List (ServiceClientHeader × Connection)
  tasks_of [] = []
  tasks_of (err e ∷ rest) = tasks_of rest
  tasks_of (ok (probed c) ∷ rest) = tasks_of rest
  tasks_of (ok (spawned client c) ∷ rest) = (client, c) ∷ tasks_of rest
