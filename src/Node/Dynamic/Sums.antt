-- ===== src/Node/Dynamic/Sums.antt =====
-- The MD5 sum of a message's definition, as `hash_message` of rosrust-async/src/node/mod.rs means it: by the
-- sums of the definitions it depends on, with no table that is shared.
use mathlib.Core.List.{Memᴰ}
use rosrust_async.Base.{◌≡◌, sym, ap, ◌∙◌, none, some, Str, Result, ok, inl, inr, Option-cases}
use rosrust_async.Base.Dict.{lookup}
use rosrust_async.Node.Dynamic.{Definitions, MsgHashes}

ok_inj : {A E : Type 0} (a b : A) → ◌≡◌ {A = Result E A} (ok a) (ok b) → a ≡ b
ok_inj a b e = cc

module _ (D : Definitions) (digest : Str → Str) (root : D.DynamicMsg) where
  open D use {Msg, MsgError, dependency, dependencies, md5_representation}

  -- The sum of a definition, on no table of earlier ones: `sums` gives those it is made of.
  pub data Md5 : Msg → Str → Type 0 where
    summed :
        (m : Msg) (sums : Str → Str) (table : MsgHashes) (representation : Str)
        → ((d : Str) (n : Msg)
            → Memᴰ d (dependencies m)
            → dependency root d ≡ some n
            → Md5 n (sums d))
        → ((d : Str) (n : Msg)
            → Memᴰ d (dependencies m)
            → dependency root d ≡ some n
            → lookup d table ≡ some (sums d))
        → ((d : Str) → dependency root d ≡ none → lookup d table ≡ none)
        → md5_representation m table ≡ ok representation
        → Md5 m (digest representation)

  -- One definition has one sum, where a representation is made of the sums of its dependencies.
  pub Md5-unique :
      ((m : Msg) (t u : MsgHashes)
        → ((d : Str) → Memᴰ d (dependencies m) → lookup d t ≡ lookup d u)
        → md5_representation m t ≡ md5_representation m u)
      → (m : Msg) (s t : Str) → Md5 m s
      → Md5 m t
      → s ≡ t
  Md5-unique local m _ _ (summed _ sums t r mine found absent e)
        (summed _ sums' u r' mine' found' absent' e') =
      let same : (d : Str) → Memᴰ d (dependencies m) → lookup d t ≡ lookup d u = λ d i.
        elim (Option-cases (dependency root d)) [
          | inl k ↦ absent d k ∙ sym (absent' d k)
          | inr (n, k) ↦
              found d n i k
              ∙ ap some (Md5-unique local n (sums d) (sums' d) (mine d n i k) (mine' d n i k))
              ∙ sym (found' d n i k)
        ] in
      ap digest (ok_inj r r' (sym e ∙ local m t u same ∙ e'))
