-- ===== src/Tcpros/ServiceClient.antt =====
-- The client of a service: rosrust-async/src/tcpros/service/client.rs. A call is taken off the link's
-- queue at a time, over the connection that the task keeps, if any.
pub mod Calls
mod Tests
use rosrust_async.Base.{
  ℕ, Bool, true, false, if◌then◌else◌, ◌==◌, Option, none, some, List, [], ◌∷◌, Str, Result, ok,
  err, map_err,
}
use rosrust_async.Base.Action.{
  Action, ◌>>=◌, done, fail, attempt, map_error, from_result, always, next,
}
use rosrust_async.Tcpros.Bytes.{IoError}
use rosrust_async.Tcpros.Net.{SocketAddr, Connection, Net, write_all, read_frame, read_u8, write}
use rosrust_async.Tcpros.Spec.{Service, CompatibilityError}
use rosrust_async.Tcpros.Header.Defs.{
  HeaderError, ServiceServerHeader, ProbeResponseHeader, ProbeRequestHeader, ServiceClientHeader,
  probe_request_fields, service_client_fields,
}
use rosrust_async.Tcpros.Header.Ser.{to_bytes}
use rosrust_async.Tcpros.Header.Visit.{Visitor, from_async_read}
use rosrust_async.Tcpros.Header.Compat.{validate_server_compatibility}
use rosrust_async.Tcpros.Service.{rpc_success, rpc_failure}
use rosrust_async.Xmlrpc.Dxr.{Dxr}
use rosrust_async.Xmlrpc.Master.{World, MasterClientError, RosMasterClient, lookup_service}

-- `String::decode` of rosrust, of a frame.
abbrev pub Decode : Type 0
Decode = Str → Result IoError Str

pub data ClientLinkError (dxr : Dxr) {W : Type 0} (net : Net W) : Type 0 where
  io : IoError → ClientLinkError dxr net
  header_failure : HeaderError → ClientLinkError dxr net
  master_client : MasterClientError dxr → ClientLinkError dxr net
  url_parse : net.ParseError → ClientLinkError dxr net
  service_resolution : net.Url → IoError → ClientLinkError dxr net
  no_service_addresses : net.Url → ClientLinkError dxr net
  incompatible : CompatibilityError → ClientLinkError dxr net
  invalid_status_code : ℕ → ClientLinkError dxr net
  rpc_failed : Str → ClientLinkError dxr net

pub record ConnectionState : Type 0 where
  pub address : SocketAddr
  pub tcp_stream : Connection
  pub server_header : ServiceServerHeader

-- What the link's task is started with.
pub record ServiceClientLink : Type 0 where
  pub service : Service
  pub persistent : Bool
  pub client_header_bytes : Str
  pub probe_header_bytes : Str

unfoldable pub probe_header : Service → Str → ProbeRequestHeader
probe_header service caller_id = record {
  caller_id = caller_id;
  service = service.name;
  md5sum = service.spec.md5sum;
  probe = true;
}

unfoldable pub client_header : Service → Str → Bool → ServiceClientHeader
client_header service caller_id persistent = record {
  caller_id = caller_id;
  service = service.name;
  md5sum = service.spec.md5sum;
  msg_type = service.spec.msg_type;
  persistent = persistent;
}

unfoldable pub new_link : Service → Str → Bool → Result HeaderError ServiceClientLink
new_link service caller_id persistent =
    elim (to_bytes (probe_request_fields (probe_header service caller_id))) [
      | err e ↦ err e
      | ok probe_header_bytes ↦
          elim (to_bytes (service_client_fields (client_header service caller_id persistent))) [
            | err e ↦ err e
            | ok client_header_bytes ↦ ok (record {
              service = service;
              persistent = persistent;
              client_header_bytes = client_header_bytes;
              probe_header_bytes = probe_header_bytes;
            })
          ]
    ]

module _ (dxr : Dxr) {W : Type 0} (net : Net W) where
  -- By the status that was read.
  by_status : Decode → ℕ → Action Connection (ClientLinkError dxr net) Str
  by_status decode status =
      if status == 1
      then map_error io read_frame
      else if status == 0
      then (do
        error_msg_bytes ← map_error io read_frame
        error_msg ← from_result (map_err io (decode error_msg_bytes))
        fail (rpc_failed error_msg))
      else fail (invalid_status_code status)

  unfoldable pub handle_rpc : Decode → Str → Action Connection (ClientLinkError dxr net) Str
  unfolding by_status
  handle_rpc decode request = do
    _ ← map_error io (write request)
    status ← map_error io read_u8
    by_status decode status

module _ {dxr : Dxr} (world : World dxr) (net : Net world.W) (master : RosMasterClient)
    (probe_visitor : Visitor ProbeResponseHeader)
    (server_visitor : Visitor ServiceServerHeader) where
  open world use {W}

  abbrev Error : Type 0
  Error = ClientLinkError dxr net

  -- A header over a new connection to the address, and the header that comes back.
  exchange : {H : Type 0} → Visitor H → SocketAddr → Str → Action W Error (H × Connection)
  exchange visitor address header_bytes = do
    tcp_stream ← map_error io (net.connect address)
    tcp_stream' ← from_result (map_err io (write_all header_bytes tcp_stream))
    (header, rest) ←
        from_result (map_err header_failure (from_async_read visitor tcp_stream'.incoming))
    done (header, record tcp_stream' { incoming = rest })

  first_address : net.Url → List SocketAddr → Result Error SocketAddr
  first_address url [] = err (no_service_addresses url)
  first_address url (address ∷ rest) = ok address

  unfoldable pub connect_to_service : ServiceClientLink → Action W Error ConnectionState
  unfolding exchange first_address
  connect_to_service link = do
    url_text ← map_error master_client (lookup_service world master link.service.name)
    service_url ← from_result (map_err url_parse (net.parse_url url_text))
    addresses ← map_error (service_resolution service_url) (net.socket_addrs service_url)
    address ← from_result (first_address service_url addresses)
    (probe_response, _) ← exchange probe_visitor address link.probe_header_bytes
    _ ←
        from_result
          (map_err incompatible (validate_server_compatibility link.service probe_response))
    (server_header, tcp_stream) ← exchange server_visitor address link.client_header_bytes
    done (record { address = address; tcp_stream = tcp_stream; server_header = server_header })

  abbrev Task : Type 0 → Type 0
  Task A = Action (Option ConnectionState × W) Error A

  -- `connection_state.take()`, or a new connection; in either case none is kept meanwhile.
  fresh :
      Result Error ConnectionState × W → Result Error ConnectionState × (Option ConnectionState × W)
  fresh (r, w) = (r, (none, w))

  acquire : ServiceClientLink → Task ConnectionState
  acquire link (some state, w) = (ok state, (none, w))
  acquire link (none, w) = fresh (connect_to_service link w)

  use_connection :
      Bool
      → ConnectionState
      → Option ConnectionState × W
      → Result Error Str × Connection
      → Result Error Str × (Option ConnectionState × W)
  use_connection persistent state (kept, w) (r, c) =
      (r, (if persistent then some (record state { tcp_stream = c }) else kept, w))

  -- The outcome of one call, which goes to its caller, and the connection that is kept.
  unfoldable pub handle_call : Decode → ServiceClientLink → Str → Task Str
  unfolding acquire use_connection fresh
  handle_call decode link data_ = do
    state ← acquire link
    λ x. use_connection link.persistent state x (handle_rpc dxr net decode data_ state.tcp_stream)

  -- `rpc_task` over the calls that it takes before it is cancelled or its queue is closed: the
  -- outcomes that it sends.
  unfoldable pub rpc_task :
      Decode
      → ServiceClientLink
      → List Str
      → Option ConnectionState × W
      → List (Result Error Str) × (Option ConnectionState × W)
  rpc_task decode link [] x = ([], x)
  rpc_task decode link (data_ ∷ rest) x =
      let (outcome, x') = handle_call decode link data_ x in
      let (outcomes, x'') = rpc_task decode link rest x' in (outcome ∷ outcomes, x'')
