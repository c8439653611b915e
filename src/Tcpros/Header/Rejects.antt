-- ===== src/Tcpros/Header/Rejects.antt =====
-- What `from_bytes` refuses, and with which error.
use rosrust_async.Base.{
  ℕ, ◌⊎◌, inl, inr, ◌*◌, ◌+◌, ◌-◌, ◌^◌, ◌≤◌, ◌<◌, [], ◌∷◌, ◌++◌, Str, true, length, ◌≡◌, refl, All,
  Result, ok, err, ◌>>=◌, arith, length-append, append_assoc, zero, suc, ◌∙◌, bind_assoc, sym,
}
use rosrust_async.Tcpros.Utf8.{is_utf8}
use rosrust_async.Tcpros.Bytes.{frame, write_u32, read_u32, length-write_u32, unexpected_eof}
use rosrust_async.Tcpros.Header.Defs.{HeaderError, invalid_length, io, tcp_ros_protocol}
use rosrust_async.Tcpros.Header.Ser.{field_text}
use rosrust_async.Tcpros.Header.De.{tcpros_error_field, next_key, Value}
use rosrust_async.Tcpros.Header.Visit.{Visitor, visit_map, from_bytes}
use rosrust_async.Tcpros.Header.Wire.{Pairs, wire, IsField, read_value}
use rosrust_async.Tcpros.Header.Parse.{
  visit_map-field, parse_field-error, wire_shrinks, reading, from_bytes-body,
}

-- The field in which a peer says why it refuses the connection.
abbrev pub error_field : Str → Str
error_field message = frame (field_text tcpros_error_field message)

length-error_field : (message rest : Str) → 4 ≤ length (error_field message ++ rest)
length-error_field message rest =
    let text = field_text tcpros_error_field message in
    omega (
      arith,
      length-append (error_field message) rest,
      length-append (write_u32 (length text)) text,
      length-write_u32 (length text),
    )

module _ {H : Type 0} (v : Visitor H) where
  open v use {State, start, seed, accept, finish}

  -- Fewer than four bytes are an unexpected end of the input. Otherwise the length in front is read,
  -- and if it is not the number of the bytes after it, the error says both.
  pub from_bytes-length :
      (bytes : Str)
      → ((length bytes < 4) × (from_bytes v bytes ≡ err (io unexpected_eof)))
        ⊎ ((n : ℕ) × (rest : Str) × (read_u32 bytes ≡ ok (n, rest))
            × ((n ≡ length bytes - 4)
                ⊎ (from_bytes v bytes ≡ err (invalid_length n (length bytes - 4)))))
  unfolding from_bytes read_u32
  from_bytes-length [] = inl (omega arith, refl)
  from_bytes-length (a ∷ []) = inl (omega arith, refl)
  from_bytes-length (a ∷ b ∷ []) = inl (omega arith, refl)
  from_bytes-length (a ∷ b ∷ c ∷ []) = inl (omega arith, refl)
  from_bytes-length (a ∷ b ∷ c ∷ d ∷ rest) =
      inr (a + b * 256 + c * 65536 + d * 16777216, rest, refl, ground arith)

  unfoldable pub collect_state : State → Pairs → Result HeaderError State
  collect_state s [] = ok s
  collect_state s ((key, raw) ∷ rest) = do
    wanted ← seed s key
    value ← read_value wanted raw
    collect_state (accept s key value) rest

  visit_map-error :
      (fields : Pairs) (message rest : Str) (fuel : ℕ) (s : State)
      → All IsField fields
      → is_utf8 message ≡ true
      → length (field_text tcpros_error_field message) < 2 ^ 32
      → length (wire fields ++ (error_field message ++ rest)) ≤ fuel
      → visit_map v fuel s (reading v (wire fields ++ (error_field message ++ rest)))
        ≡ (collect_state s fields >>= λ _. err (tcp_ros_protocol message))
  unfolding visit_map next_key collect_state
  visit_map-error [] message rest zero s h u short enough =
      absurd (omega (arith, length-error_field message rest))
  visit_map-error [] message rest (suc fuel) s h u short enough =
      rw (next_key, parse_field-error message rest u short)
  visit_map-error ((key, raw) ∷ fields) message rest zero s h u short enough =
      absurd (omega (arith, wire_shrinks key raw fields (error_field message ++ rest)))
  visit_map-error ((key, raw) ∷ fields) message rest (suc fuel) s (h, hs) u short enough =
      let after = error_field message ++ rest in
      let after_value = λ (value : Value). collect_state (accept s key value) fields in
      let stop : State → Result HeaderError H = λ _. err (tcp_ros_protocol message) in
      rw (append_assoc (frame (field_text key raw)) (wire fields) after) (
        (visit_map-field v fuel s key raw (wire fields ++ after) h)
        ∙ (λ i. seed s key >>= λ wanted. read_value wanted raw >>= λ value.
            visit_map-error fields message rest fuel (accept s key value) hs u short
              (omega (arith, wire_shrinks key raw fields after)) i)
        ∙ sym (
            bind_assoc (seed s key) (λ wanted. read_value wanted raw >>= after_value) stop ∙ (λ i.
              seed s key >>= λ wanted. bind_assoc (read_value wanted raw) after_value stop i)))

  -- After fields that fit the format, a field named `error` with a text makes the result the
  -- peer's message, unless the visitor or a value refuses an earlier field, whose error it is
  -- then; what follows it is not read. All lengths fit 32 bits.
  pub from_bytes-error :
      (fields : Pairs) (message rest : Str)
      → All IsField fields
      → is_utf8 message ≡ true
      → length (field_text tcpros_error_field message) < 2 ^ 32
      → length (wire fields ++ (error_field message ++ rest)) < 2 ^ 32
      → from_bytes v (frame (wire fields ++ (error_field message ++ rest)))
        ≡ (collect_state start fields >>= λ _. err (tcp_ros_protocol message))
  from_bytes-error fields message rest h u short fits =
      let body = wire fields ++ (error_field message ++ rest) in
      from_bytes-body v body fits
      ∙ visit_map-error fields message rest (length body) start h u short (omega arith)
