-- ===== src/Tcpros/Header/Ends.antt =====
-- The loop over the fields of a header ends by itself: visit_map and next_key_seed of
-- rosrust-async/src/tcpros/header/de.rs.
use rosrust_async.Base.{
  ℕ, zero, suc, ◌+◌, ◌≤◌, ◌≡◌, refl, sym, none, some, inl, inr, [], ◌∷◌, Str, length, length-drop,
  Result-cases, ok, arith, ◌*◌,
}
use rosrust_async.Tcpros.Bytes.{read_u32, read_exact}
use rosrust_async.Tcpros.Header.De.{
  Deserializer, Seed, Value, read_raw_field, parse_field, deserialize, next_key, string, bool,
  ignored_any, option, unsupported,
}
use rosrust_async.Tcpros.Header.Visit.{Visitor, visit_map}

read_exact-shrinks :
    (n : ℕ) (s t rest : Str) → read_exact n s ≡ ok (t, rest) → length rest ≤ length s
unfolding read_exact
read_exact-shrinks n s t rest e = ground (arith, length-drop n s)

read_raw_field-shrinks :
    (reader raw rest : Str)
    → read_raw_field reader ≡ ok (some raw, rest)
    → length rest + 4 ≤ length reader
unfolding read_raw_field read_u32
read_raw_field-shrinks [] raw rest e = ground arith
read_raw_field-shrinks (a ∷ []) raw rest e = ground arith
read_raw_field-shrinks (a ∷ b ∷ []) raw rest e = ground arith
read_raw_field-shrinks (a ∷ b ∷ c ∷ []) raw rest e = ground arith
read_raw_field-shrinks (a ∷ b ∷ c ∷ d ∷ s) raw rest e =
    let n = a + b * 256 + c * 65536 + d * 16777216 in
    elim (Result-cases (read_exact n s)) [
      | inl ((t, rest'), got) ↦ ground (arith, got, read_exact-shrinks n s t rest' got)
      | inr (error, got) ↦ ground (arith, got)
    ]

parse_field-shrinks :
    (reader rest : Str) (field : Str × Str)
    → parse_field reader ≡ ok (some field, rest)
    → length rest + 4 ≤ length reader
unfolding parse_field
parse_field-shrinks reader rest field e = elim (Result-cases (read_raw_field reader)) [
  | inl ((none, rest'), got) ↦ ground (arith, got)
  | inl ((some raw, rest'), got) ↦ ground (arith, got, read_raw_field-shrinks reader raw rest' got)
  | inr (error, got) ↦ ground (arith, got)
]

next_key-shrinks :
    (de de' : Deserializer) (key : Str)
    → next_key de ≡ ok (some key, de')
    → length de'.reader + 4 ≤ length de.reader
unfolding next_key
next_key-shrinks de de' key e = elim (Result-cases (parse_field de.reader)) [
  | inl ((none, rest), got) ↦ ground (arith, got)
  | inl ((some field, rest), got) ↦
      ground (arith, got, parse_field-shrinks de.reader rest field got)
  | inr (error, got) ↦ ground (arith, got)
]

deserialize-reader :
    (seed : Seed) (de de' : Deserializer) (v : Value)
    → deserialize seed de ≡ ok (v, de')
    → de'.reader ≡ de.reader
unfolding deserialize
deserialize-reader string de de' v e = ground arith
deserialize-reader bool de de' v e = ground arith
deserialize-reader ignored_any de de' v e = ground arith
deserialize-reader (option seed) de de' v e = deserialize-reader seed de de' v e
deserialize-reader (unsupported message) de de' v e = ground arith

empty : (s : Str) → length s ≤ 0 → s ≡ []
empty [] h = refl
empty (b ∷ s) h = ground arith

module _ {H : Type 0} (v : Visitor H) where
  open v use {State, seed, accept, finish}

  next_key-nil :
      (de : Deserializer)
      → de.reader ≡ []
      → next_key de ≡ ok (none, record { reader = []; current_field = none })
  unfolding next_key parse_field read_raw_field read_u32
  next_key-nil de e = rw (e) refl

  visit_map-empty :
      (fuel : ℕ) (s : State) (de : Deserializer)
      → length de.reader ≤ 0
      → visit_map v fuel s de ≡ finish s
  unfolding visit_map
  visit_map-empty zero s de e = refl
  visit_map-empty (suc fuel) s de e = rw (next_key-nil de (empty de.reader e), visit_map) refl

  -- Whatever the input and the visitor, the loop over the fields does not depend on its fuel once there is
  -- as much of it as there are bytes to read: more of it gives the same header, or the same error.
  pub visit_map-visit_map :
      (fuel more : ℕ) (s : State) (de : Deserializer)
      → length de.reader ≤ fuel
      → length de.reader ≤ more
      → visit_map v fuel s de ≡ visit_map v more s de
  unfolding visit_map
  visit_map-visit_map zero zero s de enough enough' = refl
  visit_map-visit_map zero (suc more) s de enough enough' =
      sym (visit_map-empty (suc more) s de enough)
  visit_map-visit_map (suc fuel) zero s de enough enough' = visit_map-empty (suc fuel) s de enough'
  visit_map-visit_map (suc fuel) (suc more) s de enough enough' =
      elim (Result-cases (next_key de)) [
        | inr (error, e) ↦ rw (e, visit_map) refl
        | inl ((none, de'), e) ↦ rw (e, visit_map) refl
        | inl ((some key, de'), e) ↦
            rw (e, visit_map)
              (elim (Result-cases (seed s key)) [
                | inr (error, e') ↦ rw (e') refl
                | inl (wanted, e') ↦ rw (e') (elim (Result-cases (deserialize wanted de')) [
                  | inr (error, e'') ↦ rw (e'') refl
                  | inl ((value, de''), e'') ↦
                      let shorter = next_key-shrinks de de' key e in
                      let same = deserialize-reader wanted de' de'' value e'' in
                      rw (e'') (
                        visit_map-visit_map fuel more (accept s key value) de''
                          (rw (same) (omega arith)) (rw (same) (omega arith)))
                ])
              ])
      ]
