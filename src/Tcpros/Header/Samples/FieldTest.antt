-- ===== src/Tcpros/Header/Samples/FieldTest.antt =====
-- A test for fields that can be written, which settles concrete headers.
use rosrust_async.Base.{
  ◌^◌, ◌≢◌, ◌≡◌, Bool, true, not, ◌&&◌, ◌==◌, ltb, [], ◌∷◌, Str, str_eq, length, All, arith,
}
use rosrust_async.Tcpros.Utf8.{is_utf8}
use rosrust_async.Tcpros.Header.Ser.{field_text}
use rosrust_async.Tcpros.Header.De.{tcpros_error_field}
use rosrust_async.Tcpros.Header.Wire.{Pairs, IsField}

-- `IsField` as a test.
abbrev pub has_no_equals : Str → Bool
has_no_equals [] = true
has_no_equals (b ∷ bs) = not (b == b'=') && has_no_equals bs

abbrev pub is_field : Str × Str → Bool
is_field f =
    has_no_equals f.0
    && not (str_eq f.0 tcpros_error_field)
    && is_utf8 f.0
    && is_utf8 f.1
    && ltb (length (field_text f.0 f.1)) (2 ^ 32)

has_no_equals-All : (s : Str) → has_no_equals s ≡ true → All (λ b. b ≢ b'=') s
has_no_equals-All [] h = tt
has_no_equals-All (b ∷ bs) h = (ground arith, has_no_equals-All bs (ground arith))

is_field-IsField : (f : Str × Str) → is_field f ≡ true → IsField f
is_field-IsField f h = record {
  no_equals = has_no_equals-All f.0 (ground arith);
  no_error = ground arith;
  key_utf8 = ground arith;
  value_utf8 = ground arith;
  short = ground arith;
}

unfoldable pub are_fields : Pairs → Bool
are_fields [] = true
are_fields (f ∷ rest) = is_field f && are_fields rest

pub are_fields-IsField : (kvs : Pairs) → are_fields kvs ≡ true → All IsField kvs
unfolding are_fields
are_fields-IsField [] h = tt
are_fields-IsField (f ∷ rest) h =
    (is_field-IsField f (ground arith), are_fields-IsField rest (ground arith))
