-- ===== src/Tcpros/Header/Parse.antt =====
-- What `parse_field` and the visitor's loop read from fields laid out as in Wire.
use rosrust_async.Base.{
  ℕ, zero, suc, ◌+◌, ◌^◌, ◌≤◌, ◌<◌, ◌≢◌, true, none, some, [], ◌∷◌, ◌++◌, Str, length, ◌≡◌, refl,
  ◌∙◌, All, Result, ok, err, ◌>>=◌, codes, arith, length-append, append_assoc, str_eq_refl,
}
use rosrust_async.Tcpros.Utf8.{is_utf8, is_utf8-append}
use rosrust_async.Tcpros.Bytes.{
  frame, write_u32, read_u32, read_u32-write_u32, read_exact-append, length-write_u32,
}
use rosrust_async.Tcpros.Header.Defs.{HeaderError, tcp_ros_protocol}
use rosrust_async.Tcpros.Header.Ser.{field_text}
use rosrust_async.Tcpros.Header.De.{
  Deserializer, Seed, Value, split_once, read_raw_field, parse_field, deserialize, next_key,
  tcpros_error_field,
}
use rosrust_async.Tcpros.Header.Visit.{Visitor, visit_map, from_bytes}
use rosrust_async.Tcpros.Header.Wire.{Pairs, wire, IsField, read_value, collect}

split_once-field_text :
    (key value : Str)
    → All (λ b. b ≢ b'=') key
    → split_once (field_text key value) ≡ some (key, value)
unfolding split_once
split_once-field_text [] value h = refl
split_once-field_text (b ∷ key) value h = ground (arith, split_once-field_text key value h.1)

field_text-utf8 : (field : Str × Str) → IsField field → is_utf8 (field_text field.0 field.1) ≡ true
field_text-utf8 (key, value) h =
    is_utf8-append key (b'=' ∷ value) h.key_utf8
      (is_utf8-append (codes "=") value (unfold is_utf8 in refl) h.value_utf8)

-- The next field of a well-formed input, and the rest of the input.
read_raw_field-frame :
    (raw rest : Str)
    → length raw < 2 ^ 32
    → is_utf8 raw ≡ true
    → read_raw_field (frame raw ++ rest) ≡ ok (some raw, rest)
unfolding read_raw_field
read_raw_field-frame raw rest short utf8 = rw (
  append_assoc (write_u32 (length raw)) raw rest,
  read_raw_field,
  read_u32-write_u32 (length raw) (raw ++ rest) short,
  read_exact-append raw rest,
  utf8,
)

parse_field-frame :
    (key value rest : Str)
    → IsField (key, value)
    → parse_field (frame (field_text key value) ++ rest) ≡ ok (some (key, value), rest)
unfolding parse_field
parse_field-frame key value rest h = rw (
  parse_field,
  read_raw_field-frame (field_text key value) rest h.short (field_text-utf8 (key, value) h),
  split_once-field_text key value h.no_equals,
  h.no_error,
)

-- A field named `error` ends the reading with the peer's message.
pub parse_field-error :
    (message rest : Str)
    → is_utf8 message ≡ true
    → length (field_text tcpros_error_field message) < 2 ^ 32
    → parse_field (frame (field_text tcpros_error_field message) ++ rest)
      ≡ err (tcp_ros_protocol message)
unfolding parse_field
parse_field-error message rest utf8 short =
    let raw = field_text tcpros_error_field message in
    let raw_utf8 : is_utf8 raw ≡ true =
      is_utf8-append (codes "error=") message (unfold is_utf8 in refl) utf8 in
    rw
      (
        parse_field,
        read_raw_field-frame raw rest short raw_utf8,
        split_once-field_text tcpros_error_field message (omega arith),
      )
      (rw (str_eq_refl tcpros_error_field))

-- Fewer than four bytes are no field.
parse_field-junk : (junk : Str) → length junk < 4 → parse_field junk ≡ ok (none, [])
unfolding parse_field read_raw_field read_u32
parse_field-junk [] h = refl
parse_field-junk (a ∷ []) h = refl
parse_field-junk (a ∷ b ∷ []) h = refl
parse_field-junk (a ∷ b ∷ c ∷ []) h = refl
parse_field-junk (a ∷ b ∷ c ∷ d ∷ rest) h = absurd (omega arith)

deserialize_current :
    (seed : Seed) (reader key value : Str)
    → deserialize seed (record { reader = reader; current_field = some (key, value) })
      ≡ (read_value seed value >>= λ v. ok (v, record { reader = reader; current_field = none }))
unfolding deserialize read_value
deserialize_current Seed.string reader key value = refl
deserialize_current Seed.bool reader key value = ground arith
deserialize_current Seed.ignored_any reader key value = refl
deserialize_current (Seed.option seed) reader key value = deserialize_current seed reader key value
deserialize_current (Seed.unsupported message) reader key value = refl

pub wire_shrinks :
    (key raw : Str) (rest : Pairs) (junk : Str)
    → 4 + length (wire rest ++ junk) ≤ length (wire ((key, raw) ∷ rest) ++ junk)
unfolding write_u32
wire_shrinks key raw rest junk = omega (
  arith,
  length-append (field_text key raw ++ wire rest) junk,
  length-append (field_text key raw) (wire rest),
  length-append (wire rest) junk,
)

-- A bind on the value that `deserialize` hands over is a bind on the value of the field's text.
deserialize_bind :
    {H : Type 0} (r : Result HeaderError Seed) (reader key raw : Str)
    (k : Value → Deserializer → Result HeaderError H)
    → (r >>= λ wanted.
        deserialize wanted (record { reader = reader; current_field = some (key, raw) }) >>= λ p.
        k p.0 p.1)
      ≡ (r >>= λ wanted. read_value wanted raw >>= λ value.
          k value (record { reader = reader; current_field = none }))
deserialize_bind (err e) reader key raw k = refl
deserialize_bind (ok wanted) reader key raw k =
    rw deserialize_current (bind_assoc (read_value wanted raw))
  where
    bind_assoc :
        (r : Result HeaderError Value)
        → ((r >>= λ v. ok (v, record { reader = reader; current_field = none }))
            >>= λ (p : Value × Deserializer). k p.0 p.1)
          ≡ (r >>= λ value. k value (record { reader = reader; current_field = none }))
    bind_assoc (ok v) = refl
    bind_assoc (err e) = refl

module _ {H : Type 0} (v : Visitor H) where
  open v use {State, start, seed, accept, finish}

  abbrev pub reading : Str → Deserializer
  reading s = record { reader = s; current_field = none }

  visit_map-junk :
      (fuel : ℕ) (s : State) (junk : Str)
      → length junk < 4
      → visit_map v fuel s (reading junk) ≡ finish s
  unfolding visit_map next_key
  visit_map-junk zero s junk h = refl
  visit_map-junk (suc fuel) s junk h = rw (next_key, parse_field-junk junk h)

  pub visit_map-field :
      (fuel : ℕ) (s : State) (key raw rest : Str)
      → IsField (key, raw)
      → visit_map v (suc fuel) s (reading (frame (field_text key raw) ++ rest)) ≡ (
          seed s key >>= λ wanted.
          read_value wanted raw >>= λ value. visit_map v fuel (accept s key value) (reading rest))
  unfolding visit_map next_key read_value
  visit_map-field fuel s key raw rest h =
      rw (next_key, parse_field-frame key raw rest h)
        (deserialize_bind (seed s key) rest key raw
          (λ value de. visit_map v fuel (accept s key value) de))

  pub visit_map-collect :
      (fields : Pairs) (junk : Str) (fuel : ℕ) (s : State)
      → All IsField fields
      → length junk < 4
      → length (wire fields ++ junk) ≤ fuel
      → visit_map v fuel s (reading (wire fields ++ junk)) ≡ collect v s fields
  unfolding collect
  visit_map-collect [] junk fuel s h j enough = visit_map-junk fuel s junk j
  visit_map-collect ((key, raw) ∷ rest) junk zero s h j enough =
      absurd (omega (arith, wire_shrinks key raw rest junk))
  visit_map-collect ((key, raw) ∷ rest) junk (suc fuel) s (h, hs) j enough =
      rw
        (
          append_assoc (frame (field_text key raw)) (wire rest) junk,
          visit_map-field fuel s key raw (wire rest ++ junk) h,
        )
        (λ i. seed s key >>= λ wanted. read_value wanted raw >>= λ value.
          visit_map-collect rest junk fuel (accept s key value) hs j
            (omega (arith, wire_shrinks key raw rest junk)) i)

  pub from_bytes-body :
      (body : Str)
      → length body < 2 ^ 32
      → from_bytes v (frame body) ≡ visit_map v (length body) start (reading body)
  unfolding from_bytes
  from_bytes-body body fits =
      let size : length (frame body) ≡ 4 + length body =
        omega
          (arith, length-append (write_u32 (length body)) body, length-write_u32 (length body)) in
      rw (from_bytes, read_u32-write_u32 (length body) body fits) (ground (arith, size))

  -- For fields that fit the format and a body within 32 bits, decoding the frame with any visitor
  -- is collecting the fields in their order, whatever up to three bytes follow the last one.
  pub from_bytes-wire :
      (fields : Pairs) (junk : Str)
      → All IsField fields
      → length junk < 4
      → length (wire fields ++ junk) < 2 ^ 32
      → from_bytes v (frame (wire fields ++ junk)) ≡ collect v start fields
  from_bytes-wire fields junk h j fits =
      let body = wire fields ++ junk in
      from_bytes-body body fits
      ∙ visit_map-collect fields junk (length body) start h j (omega arith)
