-- ===== src/Tcpros/Spec.antt =====
-- Topics, services and the compatibility of their message types: rosrust-async/src/tcpros/mod.rs.
-- `Topic::new` and `Service::new` read the three texts from the message type, by rosrust's traits.
use rosrust_async.Base.{Bool, ◌||◌, Str, str_eq, codes, if◌then◌else◌, Result, ok, err, ◌>>◌}

abbrev pub ros_wildcard : Str
ros_wildcard = codes "*"

-- Each carries the expected and the actual text.
pub data CompatibilityError : Type 0 where
  md5 : Str → Str → CompatibilityError
  type_ : Str → Str → CompatibilityError
  definition : Str → Str → CompatibilityError

unfoldable pub are_fields_compatible : Str → Str → Bool
are_fields_compatible lhs rhs =
    str_eq lhs rhs || (str_eq lhs ros_wildcard || str_eq rhs ros_wildcard)

pub record TopicSpec : Type 0 where
  pub md5sum : Str
  pub msg_type : Str
  pub msg_definition : Str

pub record Topic : Type 0 where
  pub name : Str
  pub spec : TopicSpec

pub record ServiceSpec : Type 0 where
  pub md5sum : Str
  pub msg_type : Str

pub record Service : Type 0 where
  pub name : Str
  pub spec : ServiceSpec

-- What the interfaces of a message type say: `Message` and `ServicePair` of rosrust.
pub record Message : Type 0 where
  pub md5sum : Str
  pub msg_type : Str
  pub msg_definition : Str

unfoldable pub new_topic : Message → Str → Topic
new_topic t name = record {
  name = name;
  spec = record { md5sum = t.md5sum; msg_type = t.msg_type; msg_definition = t.msg_definition };
}

unfoldable pub new_service : Message → Str → Service
new_service t name = record {
  name = name;
  spec = record { md5sum = t.md5sum; msg_type = t.msg_type };
}

-- A test that ends the function with an error when it fails.
abbrev pub ensure : Bool → CompatibilityError → Result CompatibilityError (Unit {0})
ensure b e = if b then ok tt else err e

unfoldable pub validate_topic_specs : TopicSpec → TopicSpec → Result CompatibilityError (Unit {0})
validate_topic_specs self other = do
  ensure (are_fields_compatible self.md5sum other.md5sum) (md5 self.md5sum other.md5sum)
  ensure (are_fields_compatible self.msg_type other.msg_type) (type_ self.msg_type other.msg_type)
  ensure (are_fields_compatible self.msg_definition other.msg_definition)
      (definition self.msg_definition other.msg_definition)

unfoldable pub validate_service_specs :
    ServiceSpec → ServiceSpec → Result CompatibilityError (Unit {0})
validate_service_specs self other = do
  ensure (are_fields_compatible self.md5sum other.md5sum) (md5 self.md5sum other.md5sum)
  ensure (are_fields_compatible self.msg_type other.msg_type) (type_ self.msg_type other.msg_type)
