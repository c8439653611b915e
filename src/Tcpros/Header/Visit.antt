-- ===== src/Tcpros/Header/Visit.antt =====
-- `from_bytes` and `from_async_read` of tcpros/header/de.rs. The visitor of a header type is code
-- that serde's derive makes from the type, so it is a parameter: a machine that is told each key,
-- asks for its value, and gives the header, or an error, at the end.
use rosrust_async.Base.{
  ℕ, zero, suc, ◌-◌, not, if◌then◌else◌, none, some, Str, length, Result, ok, err, ◌>>=◌, map_err,
  ◌==◌,
}
use rosrust_async.Tcpros.Bytes.{read_u32, read_tcpros_frame}
use rosrust_async.Tcpros.Header.Defs.{HeaderError, invalid_length, io}
use rosrust_async.Tcpros.Header.De.{Deserializer, Seed, Value, deserialize, next_key}

pub record Visitor (H : Type 0) : Type 1 where
  pub State : Type 0
  pub start : State
  -- What the field of that name asks for, or an error, as for a field seen before.
  pub seed : State → Str → Result HeaderError Seed
  pub accept : State → Str → Value → State
  pub finish : State → Result HeaderError H

module _ {H : Type 0} (v : Visitor H) where
  open v use {State, start, seed, accept, finish}

  -- `visit_map`: keys and values in turn until `next_key_seed` has no more. Each field takes four
  -- bytes or more, so the length of the input is fuel enough, and with no fuel nothing is left.
  unfoldable pub visit_map : ℕ → State → Deserializer → Result HeaderError H
  visit_map zero s de = finish s
  visit_map (suc fuel) s de = do
    (key, de') ← next_key de
    elim key [
      | none ↦ finish s
      | some k ↦ do
        wanted ← seed s k
        (value, de'') ← deserialize wanted de'
        visit_map fuel (accept s k value) de''
    ]

  unfoldable pub from_bytes : Str → Result HeaderError H
  unfolding visit_map
  from_bytes bytes = do
    (expected_length, rest) ← map_err io (read_u32 bytes)
    let actual_length = length bytes - 4
    if not (expected_length == actual_length)
        then err (invalid_length expected_length actual_length)
        else visit_map (length rest) start (record { reader = rest; current_field = none })

  -- The header and what is left of the stream.
  unfoldable pub from_async_read : Str → Result HeaderError (H × Str)
  unfolding from_bytes
  from_async_read stream = do
    (bytes, rest) ← map_err io (read_tcpros_frame stream)
    header ← from_bytes bytes
    ok (header, rest)
