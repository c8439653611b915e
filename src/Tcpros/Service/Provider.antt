-- ===== src/Tcpros/Service/Provider.antt =====
-- Setting up the server of a service: `ServiceProvider::new` of
-- rosrust-async/src/tcpros/service/server.rs, on any free port of the address.
use rosrust_async.Base.{◌∷◌, ◌++◌, Str, codes, decimal, map_err}
use rosrust_async.Base.Action.{Action, ◌>>=◌, done, from_result, map_error}
use rosrust_async.Tcpros.Net.{SocketAddr, Net}
use rosrust_async.Tcpros.Spec.{Service}
use rosrust_async.Tcpros.Header.Defs.{
  ProbeResponseHeader, probe_response_fields, service_server_fields,
}
use rosrust_async.Tcpros.Header.Ser.{to_bytes}
use rosrust_async.Tcpros.Service.{ServiceProviderError, io, url_parse, header_failure}

-- What the listener task is started with.
pub record ServiceProvider : Type 0 where
  pub service : Service
  pub address : SocketAddr
  pub url : Str
  pub probe_header_bytes : Str
  pub server_header_bytes : Str

unfoldable pub probe_response : Service → Str → ProbeResponseHeader
probe_response service caller_id = record {
  caller_id = caller_id;
  md5sum = service.spec.md5sum;
  msg_type = service.spec.msg_type;
}

unfoldable pub service_url : SocketAddr → Str
service_url addr = codes "rosrpc://" ++ (addr.0 ++ (b':' ∷ decimal addr.1))

unfoldable pub new_provider :
    {W : Type 0}
    → Net W
    → SocketAddr
    → Service
    → Str
    → Action W ServiceProviderError ServiceProvider
new_provider net address service caller_id = do
  bound_addr ← map_error io (net.bind address)
  url ← from_result (map_err (λ _. url_parse) (net.parse_url (service_url bound_addr)))
  probe_header_bytes ←
      from_result (
        map_err header_failure
          (to_bytes (probe_response_fields (probe_response service caller_id))))
  server_header_bytes ←
      from_result (
        map_err header_failure
          (to_bytes (service_server_fields (record { caller_id = caller_id }))))
  done (record {
    service = service;
    address = bound_addr;
    url = net.url_text url;
    probe_header_bytes = probe_header_bytes;
    server_header_bytes = server_header_bytes;
  })
