-- ===== src/Tcpros/Service/Tests.antt =====
-- The service with the sample visitors, and an echo that refuses the empty request.
use rosrust_async.Base.{
  ◌≡◌, refl, true, false, ◌==◌, [], ◌∷◌, ◌++◌, Str, codes, length, Result, ok, err, str_eq, arith,
  if◌then◌else◌,
}
use rosrust_async.Tcpros.Bytes.{frame, write_u32}
use rosrust_async.Tcpros.Spec.{Service}
use rosrust_async.Tcpros.Utf8.{is_utf8}
use rosrust_async.Tcpros.Header.Defs.{
  ServiceClientHeader, ProbeRequestHeader, service_client_fields, probe_request_fields, Fields,
}
use rosrust_async.Tcpros.Header.Wire.{pairs, wire}
use rosrust_async.Tcpros.Header.Derive.{IsHeader}
use rosrust_async.Tcpros.Header.RoundTrip.{to_bytes-wire}
use rosrust_async.Tcpros.Header.Compat.{validate_client_compatibility}
use rosrust_async.Tcpros.Header.Samples.ClientSample.{client_Derives}
use rosrust_async.Tcpros.Header.Samples.ProbeSample.{probe_visitor}
use rosrust_async.Tcpros.Header.Samples.FieldTest.{are_fields, are_fields-IsField}
use rosrust_async.Tcpros.Net.{connection, calls}
use rosrust_async.Tcpros.Service.{rpc_task}
use rosrust_async.Tcpros.Service.Rpc.{rounds, responses, response_bytes, rpc_task-calls}
use rosrust_async.Tcpros.Service.Listener.{accepted}
use rosrust_async.Tcpros.Service.Sessions.{tasks, listener_task-rpc_task}

abbrev service : Service
service = record { name = codes "/s"; spec = record { md5sum = codes "1"; msg_type = codes "p/S" } }

abbrev caller : ServiceClientHeader
caller = record {
  caller_id = codes "/b";
  service = codes "/s";
  md5sum = codes "*";
  msg_type = codes "p/S";
  persistent = true;
}

abbrev prober : ProbeRequestHeader
prober = record { caller_id = codes "/b"; service = codes "/s"; md5sum = codes "*"; probe = true }

abbrev sent_bytes : Fields → Str
sent_bytes fields = frame (wire (pairs fields))

caller-IsHeader : IsHeader (service_client_fields caller)
unfolding service_client_fields is_utf8 str_eq are_fields write_u32
caller-IsHeader = record {
  supported = (tt, (tt, (tt, (tt, (tt, tt)))));
  well_formed = are_fields-IsField (pairs (service_client_fields caller)) refl;
  fits = omega arith;
}

prober-IsHeader : IsHeader (probe_request_fields prober)
unfolding probe_request_fields is_utf8 str_eq are_fields write_u32
prober-IsHeader = record {
  supported = (tt, (tt, (tt, (tt, tt))));
  well_formed = are_fields-IsField (pairs (probe_request_fields prober)) refl;
  fits = omega arith;
}

abbrev echo : Str → Result Str Str
echo request = if length request == 4 then err (codes "empty") else ok request

abbrev encode : Str → Str
encode text = frame text

rpc_task-calls_example :
    (rpc_task echo encode
        (rounds (codes "ab" ∷ [] ∷ []))
        true
        (connection (calls (codes "ab" ∷ [] ∷ []) ++ codes "x") [])
      ≡ ok (connection (codes "x") (responses echo encode (codes "ab" ∷ [] ∷ []))))
    × (rpc_task echo encode
          (rounds (codes "ab" ∷ [] ∷ []))
          false
          (connection (calls (codes "ab" ∷ [] ∷ []) ++ codes "x") [])
        ≡ ok (
            connection
              (calls ([] ∷ []) ++ codes "x")
              (response_bytes echo encode (echo (frame (codes "ab"))))))
rpc_task-calls_example =
    rpc_task-calls echo encode (codes "ab") ([] ∷ []) (codes "x") [] (omega arith) (omega arith, tt)

-- One that sends nothing comes before the caller, and a probe after it.
listener_task-rpc_task_example :
    (tasks probe_visitor client_Derives service (codes "P") (codes "S") (
        accepted (ok (connection [] []))
        ∷ accepted (
            ok (
              connection
                (sent_bytes (service_client_fields caller) ++ calls (codes "ab" ∷ [] ∷ []))
                []))
        ∷ accepted (ok (connection (sent_bytes (probe_request_fields prober)) []))
        ∷ [])
      ≡ tasks probe_visitor client_Derives service
          (codes "P")
          (codes "S")
          (accepted (ok (connection [] [])) ∷ [])
        ++ ((caller, connection (calls (codes "ab" ∷ [] ∷ [])) (codes "S"))
            ∷ tasks probe_visitor client_Derives service
                (codes "P")
                (codes "S")
                (accepted (ok (connection (sent_bytes (probe_request_fields prober)) [])) ∷ [])))
    × (rpc_task echo encode
          (rounds (codes "ab" ∷ [] ∷ []))
          true
          (connection (calls (codes "ab" ∷ [] ∷ [])) (codes "S"))
        ≡ ok (connection [] (codes "S" ++ responses echo encode (codes "ab" ∷ [] ∷ []))))
unfolding validate_client_compatibility rosrust_async.Tcpros.Spec.are_fields_compatible str_eq
listener_task-rpc_task_example =
    listener_task-rpc_task probe_visitor client_Derives service (codes "P") (codes "S") echo encode
      caller (sent_bytes (service_client_fields caller)) (codes "ab" ∷ [] ∷ [])
      (accepted (ok (connection [] [])) ∷ [])
      (accepted (ok (connection (sent_bytes (probe_request_fields prober)) [])) ∷ [])
      caller-IsHeader (to_bytes-wire (service_client_fields caller) caller-IsHeader.supported) refl
      refl (omega arith, (omega arith, tt)) refl
