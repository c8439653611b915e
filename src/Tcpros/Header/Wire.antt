-- ===== src/Tcpros/Header/Wire.antt =====
-- An independent description of the header format: what the key-value pairs look like on the wire,
-- and what a visitor makes of a list of pairs.
use rosrust_async.Base.{
  ◌^◌, ◌<◌, ◌≢◌, true, false, if◌then◌else◌, Option, none, some, List, [], ◌∷◌, ◌++◌, Str, length,
  ◌≡◌, All, Result, ok, err, ◌>>=◌, str_eq, codes,
}
use rosrust_async.Tcpros.Utf8.{is_utf8}
use rosrust_async.Tcpros.Bytes.{frame}
use rosrust_async.Tcpros.Header.Defs.{
  HeaderError, serde, SerValue, text, flag, absent, present, other_type, Fields,
}
use rosrust_async.Tcpros.Header.Ser.{field_text}
use rosrust_async.Tcpros.Header.De.{Seed, Value, bool_value, tcpros_error_field}
use rosrust_async.Tcpros.Header.Visit.{Visitor}

abbrev pub Pairs : Type 0
Pairs = List (Str × Str)

-- Each field with its length in front, one after the other.
abbrev pub wire : Pairs → Str
wire [] = []
wire ((key, value) ∷ rest) = frame (field_text key value) ++ wire rest

-- A field that can be told apart on the wire: the key holds no `=` and is not the error field's,
-- both texts are UTF-8, and the length fits 32 bits.
pub record IsField (field : Str × Str) : Type 0 where
  pub no_equals : All (λ b. b ≢ b'=') field.0
  pub no_error : str_eq field.0 tcpros_error_field ≡ false
  pub key_utf8 : is_utf8 field.0 ≡ true
  pub value_utf8 : is_utf8 field.1 ≡ true
  pub short : length (field_text field.0 field.1) < 2 ^ 32

abbrev pub value_text : SerValue → Option Str
value_text (text v) = some v
value_text (flag v) = some (if v then codes "1" else codes "0")
value_text absent = none
value_text (present v) = value_text v
value_text (other_type t) = none

abbrev pub pair : Str → Option Str → Pairs → Pairs
pair key none rest = rest
pair key (some v) rest = (key, v) ∷ rest

-- What a header's fields are as pairs; an absent one is left out.
abbrev pub pairs : Fields → Pairs
pairs [] = []
pairs ((key, value) ∷ rest) = pair key (value_text value) (pairs rest)

-- No value is of a type that headers do not hold.
abbrev pub IsSupported : SerValue → Type 0
IsSupported (present v) = IsSupported v
IsSupported (other_type t) = ⊥
IsSupported _ = Unit {0}

-- The value of a field, read as it is asked for.
unfoldable pub read_value : Seed → Str → Result HeaderError Value
unfolding bool_value
read_value Seed.string v = ok (Value.text v)
read_value Seed.bool v = bool_value v
read_value Seed.ignored_any v = ok (Value.text v)
read_value (Seed.option seed) v = read_value seed v
read_value (Seed.unsupported message) v = err (serde message)

module _ {H : Type 0} (v : Visitor H) where
  open v use {State, start, seed, accept, finish}

  unfoldable pub collect : State → Pairs → Result HeaderError H
  unfolding read_value
  collect s [] = finish s
  collect s ((key, raw) ∷ rest) = do
    wanted ← seed s key
    value ← read_value wanted raw
    collect (accept s key value) rest
