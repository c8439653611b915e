-- ===== src/Tcpros/Header/Defs.antt =====
-- `HeaderError` (tcpros/header/error.rs) and the six headers (tcpros/header/mod.rs), with the fields
-- that their derived `Serialize` hands to the serializer, in declaration order and renamed.
use rosrust_async.Base.{ℕ, Bool, List, [], ◌∷◌, Str, codes}
use rosrust_async.Tcpros.Bytes.{IoError}

-- `invalid_length` holds the two numbers of its message, `invalid_utf8` the rejected bytes.
pub data HeaderError : Type 0 where
  invalid_length : ℕ → ℕ → HeaderError
  invalid_format : Str → HeaderError
  invalid_utf8 : Str → HeaderError
  io : IoError → HeaderError
  serde : Str → HeaderError
  tcp_ros_protocol : Str → HeaderError

-- A value as it calls a serializer: `serialize_str`, `serialize_bool`, `serialize_none`,
-- `serialize_some`, or one of the methods for other types, by the name that its error gives.
pub data SerValue : Type 0 where
  text : Str → SerValue
  flag : Bool → SerValue
  absent : SerValue
  present : SerValue → SerValue
  other_type : Str → SerValue

pub record PublisherHeader : Type 0 where
  pub caller_id : Str
  pub topic : Str
  pub md5sum : Str
  pub msg_type : Str
  pub msg_definition : Str
  pub latching : Bool

pub record SubscriberHeader : Type 0 where
  pub caller_id : Str
  pub topic : Str
  pub md5sum : Str
  pub msg_type : Str
  pub msg_definition : Str
  pub tcp_nodelay : Bool

pub record ServiceClientHeader : Type 0 where
  pub caller_id : Str
  pub service : Str
  pub md5sum : Str
  pub msg_type : Str
  pub persistent : Bool

pub record ProbeRequestHeader : Type 0 where
  pub caller_id : Str
  pub service : Str
  pub md5sum : Str
  pub probe : Bool

pub record ProbeResponseHeader : Type 0 where
  pub caller_id : Str
  pub md5sum : Str
  pub msg_type : Str

pub record ServiceServerHeader : Type 0 where
  pub caller_id : Str

abbrev pub Fields : Type 0
Fields = List (Str × SerValue)

unfoldable pub publisher_fields : PublisherHeader → Fields
publisher_fields h =
    (codes "callerid", text h.caller_id)
    ∷ (codes "topic", text h.topic)
    ∷ (codes "md5sum", text h.md5sum)
    ∷ (codes "type", text h.msg_type)
    ∷ (codes "message_definition", text h.msg_definition)
    ∷ (codes "latching", flag h.latching)
    ∷ []

unfoldable pub subscriber_fields : SubscriberHeader → Fields
subscriber_fields h =
    (codes "callerid", text h.caller_id)
    ∷ (codes "topic", text h.topic)
    ∷ (codes "md5sum", text h.md5sum)
    ∷ (codes "type", text h.msg_type)
    ∷ (codes "message_definition", text h.msg_definition)
    ∷ (codes "tcp_nodelay", flag h.tcp_nodelay)
    ∷ []

unfoldable pub service_client_fields : ServiceClientHeader → Fields
service_client_fields h =
    (codes "callerid", text h.caller_id)
    ∷ (codes "service", text h.service)
    ∷ (codes "md5sum", text h.md5sum)
    ∷ (codes "type", text h.msg_type)
    ∷ (codes "persistent", flag h.persistent)
    ∷ []

unfoldable pub probe_request_fields : ProbeRequestHeader → Fields
probe_request_fields h =
    (codes "callerid", text h.caller_id)
    ∷ (codes "service", text h.service)
    ∷ (codes "md5sum", text h.md5sum)
    ∷ (codes "probe", flag h.probe)
    ∷ []

unfoldable pub probe_response_fields : ProbeResponseHeader → Fields
probe_response_fields h =
    (codes "callerid", text h.caller_id)
    ∷ (codes "md5sum", text h.md5sum)
    ∷ (codes "type", text h.msg_type)
    ∷ []

unfoldable pub service_server_fields : ServiceServerHeader → Fields
service_server_fields h = (codes "callerid", text h.caller_id) ∷ []
