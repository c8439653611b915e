-- ===== src/Tcpros/Header/Ser.antt =====
-- The serializer of tcpros/header/ser.rs. The writer is a `Vec<u8>`, whose writes do not fail.
use rosrust_async.Base.{
  ◌≡◌, refl, ◌-◌, ◌%◌, ◌^◌, Bool, if◌then◌else◌, Option, none, some, [], ◌∷◌, ◌++◌, Str, codes,
  length, drop, Result, ok, err, ◌>>=◌,
}
use rosrust_async.Tcpros.Bytes.{write_u32}
use rosrust_async.Tcpros.Header.Defs.{
  HeaderError, serde, SerValue, text, flag, absent, present, other_type, Fields,
}

pub record Serializer : Type 0 where
  pub writer : Str
  pub current_field_name : Option Str

abbrev pub new_serializer : Str → Serializer
new_serializer writer = record { writer = writer; current_field_name = none }

-- `s.len() as u32` wraps.
unfoldable pub write_string : Str → Serializer → Serializer
write_string s ser = record ser { writer = (ser.writer ++ write_u32 (length s % 2 ^ 32)) ++ s }

-- `format!("{name}={value}")`.
abbrev pub field_text : Str → Str → Str
field_text name value = name ++ (b'=' ∷ value)

unfoldable pub write_field : Str → Str → Serializer → Serializer
unfolding write_string
write_field name value ser = write_string (field_text name value) ser

abbrev bool_text : Bool → Str
bool_text v = if v then codes "1" else codes "0"

-- `serialize_str` and `serialize_bool`, which take the name of the field out of the serializer.
write_current : Str → Str → Serializer → Result HeaderError Serializer
unfolding write_field
write_current kind v ser = elim ser.current_field_name [
  | none ↦ err (serde (kind ++ codes " must be part of a struct field"))
  | some field_name ↦ ok (write_field field_name v (record ser { current_field_name = none }))
]

unfoldable pub serialize : SerValue → Serializer → Result HeaderError Serializer
unfolding write_current
serialize (text v) ser = write_current (codes "String") v ser
serialize (flag v) ser = write_current (codes "Boolean") (bool_text v) ser
serialize absent ser = ok ser
serialize (present v) ser = serialize v ser
serialize (other_type t) ser = err (serde (codes "Unsupported type: " ++ t))

-- `SerializeStruct::serialize_field`.
unfoldable pub serialize_field : Str → SerValue → Serializer → Result HeaderError Serializer
unfolding serialize
serialize_field key value ser = serialize value (record ser { current_field_name = some key })

-- `serialize_struct`, one `serialize_field` for each field, `end`.
unfoldable pub serialize_struct : Fields → Serializer → Result HeaderError Serializer
unfolding serialize_field
serialize_struct [] ser = ok ser
serialize_struct ((key, value) ∷ rest) ser = serialize_field key value ser >>= serialize_struct rest

-- `SerializeMap`: the key and the value of an entry are written as values that are no field. The
-- serializer refuses `serialize_map` itself.
unfoldable pub serialize_key : SerValue → Serializer → Result HeaderError Serializer
unfolding serialize
serialize_key key ser = serialize key ser

unfoldable pub serialize_value : SerValue → Serializer → Result HeaderError Serializer
unfolding serialize
serialize_value value ser = serialize value ser

-- A field's text takes the name out of the serializer, so that a key after it is refused.
serialize_key-serialize_field :
    (name v key : Str) (ser : Serializer)
    → (serialize_field name (text v) ser >>= serialize_key (text key))
      ≡ err (serde (codes "String" ++ codes " must be part of a struct field"))
unfolding serialize_field serialize_key serialize write_current write_field write_string
serialize_key-serialize_field name v key ser = refl

-- The length goes over the placeholder that was written first.
unfoldable pub to_bytes : Fields → Result HeaderError Str
unfolding serialize_struct
to_bytes fields = do
  ser ← serialize_struct fields (new_serializer (write_u32 0))
  let buffer = ser.writer
  let header_size = (length buffer - 4) % 2 ^ 32
  ok (write_u32 header_size ++ drop 4 buffer)
