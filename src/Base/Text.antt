-- ===== src/Base/Text.antt =====
-- A Rust `String` is the list of its UTF-8 bytes. `codes` spells an ASCII text.
use Prim.Native.Nat.{ℕ, zero, suc, ◌+◌, ◌/◌, ◌%◌, ◌-◌, ◌^◌}
use Prim.Native.Char.{code}
use Prim.Native.String.{String}
use mathlib.Core.Path.{◌≡◌, refl}
use mathlib.Core.Logic.{◌↔◌}
use mathlib.Core.Bool.{Bool, true, false, ◌&&◌}
use mathlib.Core.List.{List, [], ◌∷◌}
use native.Mathlib.Omega.{arith}
use rosrust_async.Base.Tests.{◌==◌, ltb}

abbrev pub Str : Type 0
Str = List ℕ

abbrev pub codes : String → Str
codes String.[] = []
codes (String.◌∷◌ c s) = code c ∷ codes s

unfoldable pub str_eq : Str → Str → Bool
str_eq [] [] = true
str_eq [] (b ∷ bs) = false
str_eq (a ∷ as') [] = false
str_eq (a ∷ as') (b ∷ bs) = (a == b) && str_eq as' bs

pub str_eq_iff : (a b : Str) → (str_eq a b ≡ true) ↔ (a ≡ b)
unfolding str_eq
str_eq_iff [] [] = (λ _. refl, λ _. refl)
str_eq_iff [] (b ∷ bs) = ground arith
str_eq_iff (a ∷ as') [] = ground arith
str_eq_iff (a ∷ as') (b ∷ bs) = ground (arith, str_eq_iff as' bs)

pub str_eq_refl : (a : Str) → str_eq a a ≡ true
str_eq_refl a = (str_eq_iff a a).1 refl

-- `to_string` of a `u64`, of which twenty digits are enough.
abbrev pub digits : ℕ → ℕ → Str → Str
digits zero n acc = acc
digits (suc fuel) n acc = elim (ltb n 10) [
  | true ↦ (48 + n) ∷ acc
  | false ↦ digits fuel (n / 10) ((48 + n % 10) ∷ acc)
]

unfoldable pub decimal : ℕ → Str
decimal n = digits 20 n []

-- `to_string` of an `i32`, given as its bit pattern.
unfoldable pub decimal_i32 : ℕ → Str
unfolding decimal
decimal_i32 n = elim (ltb n (2 ^ 31)) [ true ↦ decimal n | false ↦ b'-' ∷ decimal (2 ^ 32 - n) ]
