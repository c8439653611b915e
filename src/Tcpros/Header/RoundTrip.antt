-- ===== src/Tcpros/Header/RoundTrip.antt =====
-- What the serializer writes and the deserializer reads, against the description in Wire.
use rosrust_async.Base.{
  ℕ, ◌-◌, ◌%◌, ◌^◌, if◌then◌else◌, Option, none, some, List, [], ◌∷◌, ◌++◌, Str, length, ◌≡◌, refl,
  sym, ap, ◌∙◌, All, Result, ok, ◌>>=◌, codes, arith, length-append, append_assoc, append-nil, drop,
}
use rosrust_async.Tcpros.Bytes.{frame, write_u32, length-write_u32, read_tcpros_frame-frame}
use rosrust_async.Tcpros.Header.Defs.{
  HeaderError, SerValue, text, flag, absent, present, other_type, Fields,
}
use rosrust_async.Tcpros.Header.Ser.{
  Serializer, field_text, serialize_struct, to_bytes, new_serializer, write_field, serialize_field,
}
use rosrust_async.Tcpros.Header.Wire.{Pairs, wire, pairs, pair, value_text, IsSupported}
use rosrust_async.Tcpros.Header.Derive.{Derives, IsHeader}
use rosrust_async.Tcpros.Header.Visit.{Visitor, from_bytes, from_async_read}
use rosrust_async.Tcpros.Header.Parse.{from_bytes-wire}

-- A length that has wrapped to 32 bits is written as the length is.
write_u32-mod : (n : ℕ) → write_u32 (n % 2 ^ 32) ≡ write_u32 n
unfolding write_u32
write_u32-mod n = ground arith

write_field-writer :
    (key v : Str) (ser : Serializer)
    → (write_field key v ser).writer ≡ ser.writer ++ (frame (field_text key v) ++ [])
unfolding write_field
write_field-writer key v ser =
    rw (append-nil, write_u32-mod)
      (append_assoc ser.writer (write_u32 (length (field_text key v))) (field_text key v))

-- A value of a supported type adds its field, if it has one, and nothing else.
Writes : Str → Str → Result HeaderError Serializer → Type 0
Writes before added r = (ser : Serializer) × (r ≡ ok ser) × (ser.writer ≡ before ++ added)

serialize-Writes :
    (key : Str) (value : SerValue) (ser : Serializer)
    → IsSupported value
    → Writes ser.writer (wire (pair key (value_text value) [])) (serialize_field key value ser)
unfolding serialize_field Writes
serialize-Writes key (text v) ser h =
    let before = new_serializer ser.writer in
    (write_field key v before, refl, write_field-writer key v before)
serialize-Writes key (flag v) ser h =
    let before = new_serializer ser.writer in
    let value = if v then codes "1" else codes "0" in
    (write_field key value before, refl, write_field-writer key value before)
serialize-Writes key absent ser h = (_, refl, sym (append-nil ser.writer))
serialize-Writes key (present v) ser h = serialize-Writes key v ser h
serialize-Writes key (other_type t) ser h = absurd h

wire-pair :
    (key : Str) (o : Option Str) (rest : Pairs)
    → wire (pair key o []) ++ wire rest ≡ wire (pair key o rest)
wire-pair key none rest = refl
wire-pair key (some v) rest = rw append-nil

serialize_struct-Writes :
    (fields : Fields) (ser : Serializer)
    → All (λ f. IsSupported f.1) fields
    → Writes ser.writer (wire (pairs fields)) (serialize_struct fields ser)
unfolding serialize_struct Writes
serialize_struct-Writes [] ser h = (ser, refl, sym (append-nil ser.writer))
serialize_struct-Writes ((key, value) ∷ rest) ser (h, hs) =
    let (ser', e, w) = serialize-Writes key value ser h in
    let (ser'', e', w') = serialize_struct-Writes rest ser' hs in
    (ser'', rw e e', rw (w', w, append_assoc, wire-pair))

patched :
    (body : Str)
    → write_u32 ((length (write_u32 0 ++ body) - 4) % 2 ^ 32) ++ drop 4 (write_u32 0 ++ body)
      ≡ frame body
patched body =
    let size : length (write_u32 0 ++ body) - 4 ≡ length body =
      omega (arith, length-append (write_u32 0) body, length-write_u32 0) in
    rw (size, write_u32-mod) (unfold write_u32 in refl)

-- `to_bytes` succeeds on supported values, and writes the fields as Wire says.
pub to_bytes-wire :
    (fields : Fields)
    → All (λ f. IsSupported f.1) fields
    → to_bytes fields ≡ ok (frame (wire (pairs fields)))
unfolding to_bytes Writes
to_bytes-wire fields h =
    let (ser, e, w) = serialize_struct-Writes fields (new_serializer (write_u32 0)) h in
    rw (e, w) (ap ok (patched (wire (pairs fields))))

module _ {H : Type 0} {fields : H → Fields} {required : List Str} {v : Visitor H}
    (d : Derives fields required v) where
  -- A header whose fields can be written is serialized, and read back from its bytes as it was by
  -- a visitor that is what serde derives.
  pub from_bytes-to_bytes :
      (h : H) → IsHeader (fields h) → (to_bytes (fields h) >>= from_bytes v) ≡ ok h
  from_bytes-to_bytes h w =
      let body = wire (pairs (fields h)) in
      rw (to_bytes-wire (fields h) w.supported) (
        rw (append-nil body) at (
          from_bytes-wire v (pairs (fields h)) [] w.well_formed (omega arith)
            (rw (append-nil body) w.fits))
        ∙ d.reads_back h)

  -- A header whose fields can be written (of supported types, keys and values that fit the format,
  -- within 32 bits) is serialized, and a peer whose visitor is what serde derives reads it off the
  -- stream as it was; what was sent after it stays in the stream.
  pub from_async_read-to_bytes :
      (h : H) (rest : Str)
      → IsHeader (fields h)
      → (to_bytes (fields h) >>= λ bytes. from_async_read v (bytes ++ rest)) ≡ ok (h, rest)
  unfolding from_async_read
  from_async_read-to_bytes h rest w =
      let body = wire (pairs (fields h)) in
      let written = to_bytes-wire (fields h) w.supported in
      let read : from_bytes v (frame body) ≡ ok h = rw written at (from_bytes-to_bytes h w) in
      rw (written, from_async_read, read_tcpros_frame-frame body rest w.fits, read)
