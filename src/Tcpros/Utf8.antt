-- ===== src/Tcpros/Utf8.antt =====
-- `String::from_utf8` of the standard library: the byte sequences that are well-formed UTF-8, read
-- by an automaton. Used by `read_raw_field` of rosrust-async/src/tcpros/header/de.rs.
use rosrust_async.Base.{
  ℕ, ◌≡◌, refl, sym, ◌∙◌, Bool, true, false, ◌&&◌, Option, none, some, [], ◌∷◌, ◌++◌, arith, ltb,
  leb, if◌then◌else◌, Str,
}

-- What may follow: a first byte, or some continuation bytes, the first of them in a range.
pub data Utf8State : Type 0 where
  start tail1 tail2 tail3 after_e0 after_ed after_f0 after_f4 : Utf8State

abbrev in_range : ℕ → ℕ → ℕ → Bool
in_range lo hi b = leb lo b && leb b hi

first_byte : ℕ → Option Utf8State
first_byte b =
    if ltb b 0x80
    then some start
    else if in_range 0xc2 0xdf b
    then some tail1
    else if in_range 0xe0 0xe0 b
    then some after_e0
    else if in_range 0xed 0xed b
    then some after_ed
    else if in_range 0xe1 0xef b
    then some tail2
    else if in_range 0xf0 0xf0 b
    then some after_f0
    else if in_range 0xf1 0xf3 b
    then some tail3
    else if in_range 0xf4 0xf4 b
    then some after_f4
    else none

utf8_next : Utf8State → ℕ → Option Utf8State
unfolding first_byte
utf8_next start b = first_byte b
utf8_next tail1 b = if in_range 0x80 0xbf b then some start else none
utf8_next tail2 b = if in_range 0x80 0xbf b then some tail1 else none
utf8_next tail3 b = if in_range 0x80 0xbf b then some tail2 else none
utf8_next after_e0 b = if in_range 0xa0 0xbf b then some tail1 else none
utf8_next after_ed b = if in_range 0x80 0x9f b then some tail1 else none
utf8_next after_f0 b = if in_range 0x90 0xbf b then some tail2 else none
utf8_next after_f4 b = if in_range 0x80 0x8f b then some tail2 else none

-- `none` stands for bytes that are no prefix of a well-formed text.
utf8_from : Option Utf8State → Str → Bool
unfolding utf8_next
utf8_from none s = false
utf8_from (some start) [] = true
utf8_from (some _) [] = false
utf8_from (some s) (b ∷ bs) = utf8_from (utf8_next s b) bs

unfoldable pub is_utf8 : Str → Bool
unfolding utf8_from
is_utf8 s = utf8_from (some start) s

is_start : Utf8State → Bool
is_start start = true
is_start _ = false

utf8_from-nil : (s : Utf8State) → utf8_from (some s) [] ≡ is_start s
unfolding utf8_from is_start
utf8_from-nil start = refl
utf8_from-nil _ = refl

utf8_from-cons :
    (s : Utf8State) (b : ℕ) (bs : Str) → utf8_from (some s) (b ∷ bs) ≡ utf8_from (utf8_next s b) bs
unfolding utf8_from
utf8_from-cons start b bs = refl
utf8_from-cons _ b bs = refl

utf8_from-append :
    (o : Option Utf8State) (a b : Str)
    → utf8_from o a ≡ true
    → utf8_from o (a ++ b) ≡ utf8_from (some start) b
utf8_from-append none a b h = unfold utf8_from in ground arith
utf8_from-append (some s) [] b h = unfold is_start in ground (arith, utf8_from-nil s)
utf8_from-append (some s) (x ∷ a) b h =
    utf8_from-cons s x (a ++ b)
    ∙ utf8_from-append (utf8_next s x) a b (sym (utf8_from-cons s x a) ∙ h)

-- Two well-formed texts, one after the other, are well-formed.
pub is_utf8-append : (a b : Str) → is_utf8 a ≡ true → is_utf8 b ≡ true → is_utf8 (a ++ b) ≡ true
unfolding is_utf8
is_utf8-append a b h k = utf8_from-append (some start) a b h ∙ k
