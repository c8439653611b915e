-- ===== src/Tcpros/Header/De.antt =====
-- The deserializer of tcpros/header/de.rs, over a cursor on bytes.
use rosrust_async.Base.{
  Bool, true, false, if◌then◌else◌, Option, none, some, [], ◌∷◌, ◌++◌, Str, codes, str_eq, Result,
  ok, err, ◌>>=◌, ok_or, map_err, ◌==◌,
}
use rosrust_async.Tcpros.Utf8.{is_utf8}
use rosrust_async.Tcpros.Bytes.{unexpected_eof, other, read_u32, read_exact}
use rosrust_async.Tcpros.Header.Defs.{
  HeaderError, invalid_format, invalid_utf8, io, serde, tcp_ros_protocol,
}

abbrev pub tcpros_error_field : Str
tcpros_error_field = codes "error"

pub record Deserializer : Type 0 where
  pub reader : Str
  pub current_field : Option (Str × Str)

-- `split_once('=')`.
unfoldable pub split_once : Str → Option (Str × Str)
split_once [] = none
split_once (b ∷ bs) =
    if b == b'='
    then some ([], bs)
    else elim (split_once bs) [ none ↦ none | some (key, value) ↦ some (b ∷ key, value) ]

from_utf8 : Str → Result HeaderError Str
from_utf8 s = if is_utf8 s then ok s else err (invalid_utf8 s)

-- The field and what is left to read. The end of the input, also inside the length, is no field.
unfoldable pub read_raw_field : Str → Result HeaderError (Option Str × Str)
unfolding from_utf8
read_raw_field reader = elim (read_u32 reader) [
  | ok (field_length, rest) ↦ do
    (field_buffer, rest') ← map_err io (read_exact field_length rest)
    raw_field ← from_utf8 field_buffer
    ok (some raw_field, rest')
  | err unexpected_eof ↦ ok (none, [])
  | err other ↦ err (io other)
]

key_value : Str → Result HeaderError (Str × Str)
key_value raw_field = do
  (key, value) ← ok_or (split_once raw_field) (invalid_format raw_field)
  if str_eq key tcpros_error_field then err (tcp_ros_protocol value) else ok (key, value)

unfoldable pub parse_field : Str → Result HeaderError (Option (Str × Str) × Str)
unfolding read_raw_field key_value
parse_field reader = do
  (raw_field, rest) ← read_raw_field reader
  elim raw_field [
    | none ↦ ok (none, rest)
    | some raw ↦ do field ← key_value raw; ok (some field, rest)
  ]

-- What the type of a value asks of the deserializer: `deserialize_string` (or `_str`),
-- `deserialize_bool`, `deserialize_option` around another, `deserialize_ignored_any`, or a method
-- that is refused, by the text of its error.
pub data Seed : Type 0 where
  string bool ignored_any : Seed
  option : Seed → Seed
  unsupported : Str → Seed

-- What the visitor is handed.
pub data Value : Type 0 where
  text : Str → Value
  flag : Bool → Value

take_value : Str → Deserializer → Result HeaderError (Str × Deserializer)
take_value kind de = do
  (key, value) ← ok_or de.current_field (serde (kind ++ codes " must be part of a struct field"))
  ok (value, record de { current_field = none })

unfoldable pub bool_value : Str → Result HeaderError Value
bool_value value =
    if str_eq value (codes "0")
    then ok (flag false)
    else if str_eq value (codes "1")
    then ok (flag true)
    else err (serde (codes "Invalid bool value: " ++ value))

unfoldable pub deserialize : Seed → Deserializer → Result HeaderError (Value × Deserializer)
unfolding take_value bool_value
deserialize string de = do (value, de') ← take_value (codes "String") de; ok (text value, de')
deserialize bool de = do
  (value, de') ← take_value (codes "Bool") de
  v ← bool_value value
  ok (v, de')
deserialize ignored_any de = do (value, de') ← take_value (codes "String") de; ok (text value, de')
deserialize (option seed) de = deserialize seed de
deserialize (unsupported message) de = err (serde message)

-- `next_key_seed` hands the key over and keeps the field for the value.
unfoldable pub next_key : Deserializer → Result HeaderError (Option Str × Deserializer)
unfolding parse_field
next_key de = do
  (field, rest) ← parse_field de.reader
  let de' : Deserializer = record { reader = rest; current_field = field }
  ok (elim field [ none ↦ none | some (key, value) ↦ some key ], de')
