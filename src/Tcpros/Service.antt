-- ===== src/Tcpros/Service.antt =====
-- The server of a service: `handle_request` and `rpc_task` of rosrust-async/src/tcpros/service/server.rs.
pub mod Handshake
pub mod Rpc
pub mod Provider
pub mod Listener
pub mod Sessions
mod Tests
use rosrust_async.Base.{
  Bool, true, false, if◌then◌else◌, Option, none, some, List, [], ◌∷◌, ◌++◌, Str, Result, ok, err,
  ◌>>=◌, map_err,
}
use rosrust_async.Tcpros.Bytes.{IoError, read_tcpros_frame}
use rosrust_async.Tcpros.Net.{Connection, write_all}
use rosrust_async.Tcpros.Spec.{Service, CompatibilityError}
use rosrust_async.Tcpros.Header.Defs.{HeaderError, ServiceClientHeader, ProbeRequestHeader}
use rosrust_async.Tcpros.Header.Visit.{Visitor, from_bytes}
use rosrust_async.Tcpros.Header.Compat.{validate_client_compatibility}

-- The parse error of an URL is not kept.
pub data ServiceProviderError : Type 0 where
  io : IoError → ServiceProviderError
  incompatible : CompatibilityError → ServiceProviderError
  url_parse unknown_request : ServiceProviderError
  header_failure : HeaderError → ServiceProviderError

pub data RequestKind : Type 0 where
  probe : ProbeRequestHeader → RequestKind
  client_handshake : ServiceClientHeader → RequestKind

-- What comes of a request: a probe is answered, or a task is spawned for the calls of a client.
pub data Handled : Type 0 where
  probed : Connection → Handled
  spawned : ServiceClientHeader → Connection → Handled

module _ (client_visitor : Visitor ServiceClientHeader)
    (probe_visitor : Visitor ProbeRequestHeader) where
  -- A client's handshake is tried before a probe.
  unfoldable pub request_kind : Str → Result ServiceProviderError RequestKind
  request_kind header_data = elim (from_bytes client_visitor header_data) [
    | ok client ↦ ok (client_handshake client)
    | err _ ↦ elim (from_bytes probe_visitor header_data) [
      | ok p ↦ ok (probe p)
      | err _ ↦ err unknown_request
    ]
  ]

  respond : Service → Str → Str → Connection → RequestKind → Result ServiceProviderError Handled
  respond service probe_header_bytes server_header_bytes c (probe p) = do
    c' ← map_err io (write_all probe_header_bytes c)
    ok (probed c')
  respond service probe_header_bytes server_header_bytes c (client_handshake client) = do
    _ ← map_err incompatible (validate_client_compatibility service client)
    c' ← map_err io (write_all server_header_bytes c)
    ok (spawned client c')

  unfoldable pub handle_request :
      Service → Str → Str → Connection → Result ServiceProviderError Handled
  unfolding respond request_kind
  handle_request service probe_header_bytes server_header_bytes c = do
    (header_data, rest) ← map_err io (read_tcpros_frame c.incoming)
    kind ← request_kind header_data
    respond service probe_header_bytes server_header_bytes (record c { incoming = rest }) kind

abbrev pub rpc_failure : Str
rpc_failure = 0 ∷ []

abbrev pub rpc_success : Str
rpc_success = 1 ∷ []

-- One round of the task's `select!`.
pub data RpcEvent : Type 0 where
  cancelled data_ready : RpcEvent

-- The callback is the user's, with `encode` of rosrust for the text of its error.
module _ (callback : Str → Result Str Str) (encode : Str → Str) where
  unfoldable pub reply : Result Str Str → Connection → Result IoError Connection
  reply (ok response) c = do c' ← write_all rpc_success c; write_all response c'
  reply (err e) c = do c' ← write_all rpc_failure c; write_all (encode e) c'

  unfoldable pub serve : Connection → Result IoError Connection
  serve c = do
    (data_, rest) ← read_tcpros_frame c.incoming
    reply (callback data_) (record c { incoming = rest })

  -- The task over the events that it takes; with no more of them it waits.
  unfoldable pub rpc_task : List RpcEvent → Bool → Connection → Result IoError Connection
  rpc_task [] persistent c = ok c
  rpc_task (cancelled ∷ events) persistent c = ok c
  rpc_task (data_ready ∷ events) true c = do c' ← serve c; rpc_task events true c'
  rpc_task (data_ready ∷ events) false c = serve c
