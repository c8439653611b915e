-- ===== src/Tcpros/Tests.antt =====
-- The wire protocol on a small publisher header, with the visitor of Samples.
use rosrust_async.Base.{
  ◌≡◌, refl, true, false, [], ◌∷◌, ◌++◌, arith, Str, codes, All, ok, err, ◌>>=◌, str_eq, none,
}
use rosrust_async.Tcpros.Utf8.{is_utf8}
use rosrust_async.Tcpros.Bytes.{frame, write_u32}
use rosrust_async.Tcpros.Spec.{Service, TopicSpec, validate_service_specs}
use rosrust_async.Tcpros.Header.Defs.{
  PublisherHeader, SubscriberHeader, ServiceClientHeader, ProbeResponseHeader, publisher_fields,
  tcp_ros_protocol,
}
use rosrust_async.Tcpros.Header.Ser.{to_bytes}
use rosrust_async.Tcpros.Header.Visit.{from_bytes, from_async_read, visit_map}
use rosrust_async.Tcpros.Header.Wire.{Pairs, wire, pairs, IsField, collect}
use rosrust_async.Tcpros.Header.Derive.{IsHeader}
use rosrust_async.Tcpros.Header.Compat.{
  Verdict, validate_pubsub_compatibility, validate_server_compatibility,
  validate_client_compatibility, validate-Verdict,
}
use rosrust_async.Tcpros.Header.Parse.{from_bytes-wire}
use rosrust_async.Tcpros.Header.RoundTrip.{from_async_read-to_bytes}
use rosrust_async.Tcpros.Header.Rejects.{from_bytes-error, collect_state, error_field}
use rosrust_async.Tcpros.Header.Samples.FieldTest.{are_fields, are_fields-IsField}
use rosrust_async.Tcpros.Header.Samples.PublisherSample.{publisher_visitor, publisher_Derives}
use rosrust_async.Tcpros.Header.Ends.{visit_map-visit_map}

abbrev sample : PublisherHeader
sample = record {
  caller_id = codes "/a";
  topic = codes "/t";
  md5sum = codes "*";
  msg_type = codes "p/T";
  msg_definition = codes "x";
  latching = true;
}

abbrev fields : Pairs
fields = (codes "topic", codes "/t") ∷ []

abbrev message : Str
message = codes "no"

sample-IsHeader : IsHeader (publisher_fields sample)
unfolding publisher_fields is_utf8 str_eq are_fields write_u32
sample-IsHeader = record {
  supported = (tt, (tt, (tt, (tt, (tt, (tt, tt))))));
  well_formed = are_fields-IsField (pairs (publisher_fields sample)) refl;
  fits = omega arith;
}

fields-IsField : All IsField fields
unfolding is_utf8 str_eq are_fields
fields-IsField = are_fields-IsField fields refl

from_async_read-to_bytes_example :
    (to_bytes (publisher_fields sample) >>= λ bytes.
    from_async_read publisher_visitor (bytes ++ codes "next"))
    ≡ ok (sample, codes "next")
from_async_read-to_bytes_example =
    from_async_read-to_bytes publisher_Derives sample (codes "next") sample-IsHeader

from_bytes-wire_example :
    from_bytes publisher_visitor (frame (wire fields ++ codes "abc"))
    ≡ collect publisher_visitor publisher_visitor.start fields
unfolding write_u32
from_bytes-wire_example =
    from_bytes-wire publisher_visitor fields (codes "abc") fields-IsField (omega arith)
      (omega arith)

from_bytes-error_example :
    from_bytes publisher_visitor (frame (wire fields ++ (error_field message ++ codes "rest"))) ≡ (
      collect_state publisher_visitor publisher_visitor.start fields >>= λ _.
      err (tcp_ros_protocol message))
unfolding write_u32 is_utf8
from_bytes-error_example =
    from_bytes-error publisher_visitor fields message (codes "rest") fields-IsField refl
      (omega arith) (omega arith)

abbrev spec : TopicSpec
spec = record { md5sum = codes "1"; msg_type = codes "p/T"; msg_definition = codes "x" }

abbrev any_spec : TopicSpec
any_spec = record { md5sum = codes "*"; msg_type = codes "*"; msg_definition = codes "*" }

abbrev offer : PublisherHeader
offer = record sample { md5sum = codes "1"; msg_type = codes "p/T" }

abbrev request : SubscriberHeader
request = record {
  caller_id = codes "/b";
  topic = codes "/t";
  md5sum = codes "2";
  msg_type = codes "p/T";
  msg_definition = codes "x";
  tcp_nodelay = false;
}

abbrev service : Service
service = record { name = codes "/s"; spec = record { md5sum = codes "1"; msg_type = codes "p/S" } }

abbrev probed : ProbeResponseHeader
probed = record { caller_id = codes "/b"; md5sum = codes "1"; msg_type = codes "p/S" }

abbrev caller : ServiceClientHeader
caller = record {
  caller_id = codes "/b";
  service = codes "/s";
  md5sum = codes "*";
  msg_type = codes "p/R";
  persistent = false;
}

validate-Verdict_example :
    Verdict
      (codes "1")
      (codes "2")
      (codes "p/T")
      (codes "p/T")
      (validate_pubsub_compatibility offer request)
    × Verdict
        (codes "1")
        (codes "1")
        (codes "p/S")
        (codes "p/S")
        (validate_server_compatibility service probed)
    × Verdict
        (codes "1")
        (codes "*")
        (codes "p/S")
        (codes "p/R")
        (validate_client_compatibility service caller)
    × Verdict
        (codes "1")
        (codes "1")
        (codes "p/S")
        (codes "p/S")
        (validate_service_specs service.spec service.spec)
validate-Verdict_example = validate-Verdict offer request service probed caller service.spec

-- The visitor reads a header with more fuel than it has bytes.
visit_map-visit_map_example :
    visit_map publisher_visitor 40 publisher_visitor.start
      (record { reader = wire fields; current_field = none })
    ≡ visit_map publisher_visitor 1000 publisher_visitor.start
        (record { reader = wire fields; current_field = none })
unfolding write_u32
visit_map-visit_map_example =
    visit_map-visit_map publisher_visitor 40 1000 publisher_visitor.start
      (record { reader = wire fields; current_field = none }) (omega arith) (omega arith)
