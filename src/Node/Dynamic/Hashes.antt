-- ===== src/Node/Dynamic/Hashes.antt =====
-- The sums of `hash_message` (rosrust-async/src/node/mod.rs): its table, which spares a second sum of one
-- definition, does not change them.
use mathlib.Core.List.{Memᴰ}
use mathlib.Core.List.Memᴰ.{head, tail}
use rosrust_async.Base.{
  ℕ, zero, suc, ◌<◌, ◌≡◌, refl, subst, arith, Option, none, some, List, [], ◌∷◌, Str, Result, ok,
  err, inl, inr, Option-cases, Bool-cases, str_eq, str_eq_iff, sym,
}
use rosrust_async.Base.Dict.{lookup, insert, lookup-insert}
use rosrust_async.Base.Action.{next}
use rosrust_async.Node.Dynamic.Sums.{Md5, summed, Md5-unique}
use rosrust_async.Node.Dynamic.{
  Definitions, MsgHashes, Stopped, ros_message, exhausted, Hashing, hash_known, hash_missing,
  hash_dependencies, keep, hash_message,
}

module _ (D : Definitions) (digest : Str → Str) (root : D.DynamicMsg) where
  open D use {Msg, MsgError, dependency, path, dependencies, md5_representation}

  IsGood : MsgHashes → Type 0
  IsGood hashes =
      (p s : Str)
      → lookup p hashes ≡ some s
      → (m : Msg) × (dependency root p ≡ some m) × Md5 D digest root m s

  Known : Str → MsgHashes → Type 0
  Known p hashes = (s : Str) × (lookup p hashes ≡ some s)

  Kept : MsgHashes → MsgHashes → Type 0
  Kept before later = (p : Str) → Known p before → Known p later

  unfoldable pub Ends :
      {A : Type 0} → (A → MsgHashes → Type 0) → Result (Stopped MsgError) A × MsgHashes → Type 0
  Ends P (ok a, hashes) = P a hashes
  Ends P (err (ros_message e), hashes) = Unit
  Ends P (err exhausted, hashes) = ⊥

  Ends-next :
      {A B : Type 0} (P : A → MsgHashes → Type 0) (Q : B → MsgHashes → Type 0)
      (r : Result (Stopped MsgError) A × MsgHashes) (k : A → Hashing D digest B)
      → Ends P r
      → ((a : A) (h : MsgHashes) → P a h → Ends Q (k a h))
      → Ends Q (next r k)
  unfolding Ends
  Ends-next P Q (ok a, h) k ends go = go a h ends
  Ends-next P Q (err (ros_message e), h) k ends go = tt
  Ends-next P Q (err exhausted, h) k ends go = ends

  Ends-Ends :
      {A : Type 0} (P Q : A → MsgHashes → Type 0) (r : Result (Stopped MsgError) A × MsgHashes)
      → Ends P r
      → ((a : A) (h : MsgHashes) → P a h → Q a h)
      → Ends Q r
  unfolding Ends
  Ends-Ends P Q (ok a, h) ends go = go a h ends
  Ends-Ends P Q (err (ros_message e), h) ends go = tt
  Ends-Ends P Q (err exhausted, h) ends go = ends

  -- After a good table, a good table with no path less and a sum at `d`, if `d` is known.
  At : {A : Type 0} → Str → MsgHashes → A → MsgHashes → Type 0
  At d before _ later =
      IsGood later × Kept before later × ((n : Msg) → dependency root d ≡ some n → Known d later)

  All : List Str → MsgHashes → Unit {0} → MsgHashes → Type 0
  All ds before _ later =
      IsGood later
      × Kept before later
      × ((d : Str) (n : Msg) → Memᴰ d ds → dependency root d ≡ some n → Known d later)

  Hashes : (Msg → Hashing D digest Str) → Str → Type 0
  Hashes hash d =
      (n : Msg) → dependency root d ≡ some n → (h : MsgHashes) → IsGood h → Ends (At d h) (hash n h)

  hash_known-At :
      (hash : Msg → Hashing D digest Str) (d : Str)
      → Hashes hash d
      → (h : MsgHashes) → IsGood h
      → (k : Option Msg) → dependency root d ≡ k
      → Ends (At d h) (hash_known D digest hash k h)
  unfolding hash_known Ends At Kept Hashes
  hash_known-At hash d hashes h good none unknown = (good, λ p k. k, λ n e. absurd (cc))
  hash_known-At hash d hashes h good (some n) known =
      Ends-next (At d h) (At d h) (hash n h) _ (hashes n known h good) (λ a later at. at)

  hash_missing-At :
      (hash : Msg → Hashing D digest Str) (d : Str)
      → Hashes hash d
      → (h : MsgHashes) → IsGood h
      → (s : Option Str) → lookup d h ≡ s
      → Ends (At d h) (hash_missing D digest root hash d s h)
  unfolding hash_missing Ends At Kept Known
  hash_missing-At hash d hashes h good none e =
      hash_known-At hash d hashes h good (dependency root d) refl
  hash_missing-At hash d hashes h good (some s) e = (good, λ p k. k, λ n known. (s, e))

  knows :
      (d : Str) (ds : List Str) (later : MsgHashes)
      → ((n : Msg) → dependency root d ≡ some n → Known d later)
      → ((e : Str) (n : Msg) → Memᴰ e ds → dependency root e ≡ some n → Known e later)
      → (e : Str) (n : Msg) → Memᴰ e (d ∷ ds)
      → dependency root e ≡ some n
      → Known e later
  knows d ds later first rest e n (head same) known =
      subst (λ p. Known p later) (sym same) (first n (cc))
  knows d ds later first rest e n (tail m) known = rest e n m known

  hash_dependencies-All :
      (hash : Msg → Hashing D digest Str) (ds : List Str)
      → ((d : Str) → Memᴰ d ds → Hashes hash d)
      → (h : MsgHashes) → IsGood h
      → Ends (All ds h) (hash_dependencies D digest root hash ds h)
  unfolding hash_dependencies Ends All Kept At
  hash_dependencies-All hash [] hashes h good = (good, λ p k. k, λ d n m. elim m [ ])
  hash_dependencies-All hash (d ∷ ds) hashes h good =
      Ends-next (At d h) (All (d ∷ ds) h) _ (λ _. hash_dependencies D digest root hash ds)
        (hash_missing-At hash d (hashes d (head refl)) h good (lookup d h) refl)
        (λ a mid at.
          Ends-Ends (All ds mid) (All (d ∷ ds) h) _
            (hash_dependencies-All hash ds (λ e m. hashes e (tail m)) mid at.0)
            (λ b later all. (
              all.0,
              λ p k. all.1 p (at.1 p k),
              λ e n m known. knows d ds later (λ n k. all.1 d (at.2 n k)) all.2 e n m known,
            )))

  or_empty : Option Str → Str
  or_empty none = []
  or_empty (some s) = s

  -- The sum that is kept is a right one, of the good table, and stands in the table.
  Sum : Msg → MsgHashes → Str → MsgHashes → Type 0
  Sum m before s later = Md5 D digest root m s × (later ≡ insert (path m) s before)

  good-Md5 :
      (h : MsgHashes)
      → IsGood h
      → (d : Str) (n : Msg) → dependency root d ≡ some n
      → Known d h
      → (lookup d h ≡ some (or_empty (lookup d h))) × Md5 D digest root n (or_empty (lookup d h))
  unfolding IsGood Known or_empty
  good-Md5 h good d n known (s, e) =
      let (m, found, md5) = good d s e in rw e (refl, subst (λ x. Md5 D digest root x s) (cc) md5)

  good-none : (h : MsgHashes) → IsGood h → (d : Str) → dependency root d ≡ none → lookup d h ≡ none
  unfolding IsGood
  good-none h good d unknown = elim (Option-cases (lookup d h)) [
    | inl e ↦ e
    | inr (s, e) ↦ let (m, found, md5) = good d s e in absurd (cc)
  ]

  keep-Sum :
      (m : Msg) (h : MsgHashes) (r : Result MsgError Str)
      → md5_representation m h ≡ r
      → IsGood h
      → ((d : Str) (n : Msg) → Memᴰ d (dependencies m) → dependency root d ≡ some n → Known d h)
      → Ends (Sum m h) (keep D digest m r h)
  unfolding keep Ends Sum
  keep-Sum m h (err e) r good known = tt
  keep-Sum m h (ok representation) r good known = (
    summed m (λ d. or_empty (lookup d h)) h representation
        (λ d n i k. (good-Md5 h good d n k (known d n i k)).1)
        (λ d n i k. (good-Md5 h good d n k (known d n i k)).0) (good-none h good) r,
    refl,
  )

  KeptSum : Msg → MsgHashes → Str → MsgHashes → Type 0
  KeptSum m before s later = (mid : MsgHashes) × IsGood mid × Kept before mid × Sum m mid s later

  insert-IsGood :
      (h : MsgHashes) (d : Str) (n : Msg) (s : Str)
      → IsGood h
      → dependency root d ≡ some n
      → Md5 D digest root n s
      → IsGood (insert d s h)
  unfolding IsGood
  insert-IsGood h d n s good known md5 p t e = elim (Bool-cases (str_eq d p)) [
    | inl same ↦ (
      n,
      ground (arith, str_eq_iff d p),
      subst (λ x. Md5 D digest root n x) (ground (arith, lookup-insert d p s h)) md5,
    )
    | inr other ↦ good p t (ground (arith, lookup-insert d p s h))
  ]

  insert-Known : (h : MsgHashes) (d p s : Str) → Known p h → Known p (insert d s h)
  unfolding Known
  insert-Known h d p s (t, e) = elim (Bool-cases (str_eq d p)) [
    | inl same ↦ (s, ground (arith, lookup-insert d p s h))
    | inr other ↦ (t, ground (arith, lookup-insert d p s h))
  ]

  lookup-insert_same : (h : MsgHashes) (d s : Str) → lookup d (insert d s h) ≡ some s
  lookup-insert_same h d s = ground (arith, lookup-insert d d s h, str_eq_iff d d)

  KeptSum-At :
      (m : Msg) (d : Str) (h : MsgHashes) (s : Str) (later : MsgHashes)
      → path m ≡ d
      → dependency root d ≡ some m
      → KeptSum m h s later
      → At d h s later
  unfolding KeptSum Sum At Kept Known
  KeptSum-At m d h s later at known (mid, good, kept, sum) =
      let e' : later ≡ insert d s mid = subst (λ p. later ≡ insert p s mid) at sum.1 in
      rw e' (
        insert-IsGood mid d m s good known sum.0,
        λ p k. insert-Known mid d p s (kept p k),
        λ n k. (s, lookup-insert_same mid d s),
      )

  empty-IsGood : IsGood []
  unfolding IsGood lookup
  empty-IsGood p s e = absurd (cc)

  module _ (path_of : (d : Str) (n : Msg) → dependency root d ≡ some n → path n ≡ d)
      (rank : Msg → ℕ)
      (acyclic : (m n : Msg) (d : Str)
        → Memᴰ d (dependencies m)
        → dependency root d ≡ some n
        → rank n < rank m) where
    hash_message-KeptSum :
        (fuel : ℕ) (m : Msg)
        → rank m < fuel
        → (h : MsgHashes) → IsGood h
        → Ends (KeptSum m h) (hash_message D digest fuel root m h)
    unfolding hash_message Hashes All KeptSum
    hash_message-KeptSum zero m less h good = absurd (omega arith)
    hash_message-KeptSum (suc fuel) m less h good =
        Ends-next (All (dependencies m) h) (KeptSum m h) _ _
          (hash_dependencies-All (hash_message D digest fuel root) (dependencies m)
            (λ d i n known before sound.
              Ends-Ends (KeptSum n before) (At d before) _
                (hash_message-KeptSum fuel n (omega (arith, acyclic m n d i known)) before sound)
                (λ s later. KeptSum-At n d before s later (path_of d n known) known))
            h good)
          (λ a mid all.
            Ends-Ends (Sum m mid) (KeptSum m h) _
              (keep-Sum m mid (md5_representation m mid) refl all.0 all.2)
              (λ s later sum. (mid, all.0, all.1, sum)))

    -- A definition found at a path has that path, the dependencies found are acyclic, and a representation is made
    -- of the table's sums of its dependencies. Then, with the definition's rank less than the fuel, `hash_message`
    -- on an empty table ends: with an error of ros_message or with the definition's one sum, which is made of its
    -- dependencies' sums, however many definitions share a dependency.
    pub hash_message_lem :
        ((m : Msg) (t u : MsgHashes)
          → ((d : Str) → Memᴰ d (dependencies m) → lookup d t ≡ lookup d u)
          → md5_representation m t ≡ md5_representation m u)
        → (fuel : ℕ) (m : Msg) → rank m < fuel
        → Ends
            (λ s _. Md5 D digest root m s × ((t : Str) → Md5 D digest root m t → s ≡ t))
            (hash_message D digest fuel root m [])
    unfolding KeptSum Sum
    hash_message_lem local fuel m less =
        Ends-Ends (KeptSum m []) _ _ (hash_message-KeptSum fuel m less [] empty-IsGood)
          (λ s later (mid, good, kept, sum).
            (sum.0, λ t other. Md5-unique D digest root local m s t sum.0 other))
