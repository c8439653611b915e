-- ===== src/Node/Guards.antt =====
-- Guards: the value that all handles of one registration share through an `Arc`, and that the
-- registry knows through a `Weak`. A guard is named by its place in the list of all guards made so
-- far; `strong` is the number of handles. `PublisherGuard`, `SubscriberGuard`, `ServiceClientGuard`
-- and `ServiceServerGuard` are alike: rosrust-async/src/node/actors.
pub mod Handles
mod Tests
use rosrust_async.Base.{
  ℕ, ◌-◌, ◌+◌, ◌≡◌, Bool, true, false, ◌&&◌, if◌then◌else◌, ◌==◌, ltb, Option, none, some, List, [],
  ◌∷◌, ◌++◌, get_elem?, set, length, Str, arith, get_elem?-set, Option-cases, inl, inr,
  get_elem?-append_last, get_elem?-length,
}

pub record Guard : Type 0 where
  pub name : Str
  pub armed : Bool
  pub strong : ℕ

abbrev pub Guards : Type 0
Guards = List Guard

-- `Arc::new(Guard::new(…))`: the new guard's place and the list with it.
unfoldable pub new_guard : Str → Guards → ℕ × Guards
new_guard name gs = (length gs, gs ++ (record { name = name; armed = true; strong = 1 } ∷ []))

abbrev pub change : (Guard → Guard) → ℕ → Guards → Guards
change f i gs = elim (get_elem? gs i) [ none ↦ gs | some g ↦ set gs i (f g) ]

-- `Weak::upgrade` is refused once the last handle is gone.
unfoldable pub is_alive : ℕ → Guards → Bool
is_alive i gs = elim (get_elem? gs i) [ none ↦ false | some g ↦ ltb 0 g.strong ]

-- One handle more, by `upgrade` or `Clone`.
unfoldable pub retain : ℕ → Guards → Guards
retain = change (λ g. record g { strong = g.strong + 1 })

unfoldable pub disarm : ℕ → Guards → Guards
disarm = change (λ g. record g { armed = false })

-- `if let Some(guard) = guard.upgrade() { guard.disarm(); }`; the upgraded handle is gone after it.
unfoldable pub disarm_alive : ℕ → Guards → Guards
unfolding is_alive disarm
disarm_alive i gs = if is_alive i gs then disarm i gs else gs

-- A handle is dropped. The last one runs the guard's `Drop`, which sends the name to the actor if
-- the guard is still armed.
unfoldable pub release : ℕ → Guards → Option Str × Guards
release i gs = elim (get_elem? gs i) [
  | none ↦ (none, gs)
  | some g ↦ (
    if (g.strong == 1) && g.armed then some g.name else none,
    set gs i (record g { strong = g.strong - 1 }),
  )
]

pub get_elem?-change :
    (f : Guard → Guard) (i j : ℕ) (gs : Guards)
    → get_elem? (change f i gs) j ≡ (
        if i == j
        then elim (get_elem? gs i) [ none ↦ none | some g ↦ some (f g) ]
        else get_elem? gs j)
get_elem?-change f i j gs = elim (Option-cases (get_elem? gs i)) [
  | inl e ↦ ground (arith, e)
  | inr (g, e) ↦ ground (arith, e, get_elem?-set gs i j (f g) g e)
]

-- The name that a guard was made for.
unfoldable pub guard_name : ℕ → Guards → Option Str
guard_name i gs = elim (get_elem? gs i) [ none ↦ none | some g ↦ some g.name ]

pub guard_name-retain : (i j : ℕ) (gs : Guards) → guard_name j (retain i gs) ≡ guard_name j gs
unfolding guard_name retain
guard_name-retain i j gs =
    ground (arith, get_elem?-change (λ g. record g { strong = g.strong + 1 }) i j gs)

pub guard_name-disarm_alive :
    (i j : ℕ) (gs : Guards) → guard_name j (disarm_alive i gs) ≡ guard_name j gs
unfolding guard_name disarm_alive
guard_name-disarm_alive i j gs =
    ground (arith, get_elem?-change (λ g. record g { armed = false }) i j gs)

pub guard_name-new_guard :
    (name : Str) (j : ℕ) (gs : Guards)
    → guard_name j (new_guard name gs).1 ≡ (if length gs == j then some name else guard_name j gs)
unfolding guard_name new_guard
guard_name-new_guard name j gs =
    ground (arith, get_elem?-append_last gs (record { name = name; armed = true; strong = 1 }) j)

pub is_alive-new_guard :
    (name : Str) (gs : Guards) → is_alive (new_guard name gs).0 (new_guard name gs).1 ≡ true
unfolding is_alive new_guard
is_alive-new_guard name gs =
    ground (
      arith,
      get_elem?-append_last gs (record { name = name; armed = true; strong = 1 }) (length gs),
    )

pub is_alive-retain : (i : ℕ) (gs : Guards) → is_alive i gs ≡ true → is_alive i (retain i gs) ≡ true
unfolding is_alive retain
is_alive-retain i gs h =
    ground (arith, get_elem?-change (λ g. record g { strong = g.strong + 1 }) i i gs)

pub is_alive-disarm_alive : (i j : ℕ) (gs : Guards) → is_alive j (disarm_alive i gs) ≡ is_alive j gs
unfolding is_alive disarm_alive
is_alive-disarm_alive i j gs =
    ground (arith, get_elem?-change (λ g. record g { armed = false }) i j gs)

-- A guard that was disarmed while in use, or is no longer in use, sends nothing when a handle goes.
pub release-disarm_alive : (i : ℕ) (gs : Guards) → (release i (disarm_alive i gs)).0 ≡ none
unfolding release disarm_alive
release-disarm_alive i gs =
    ground (arith, get_elem?-change (λ g. record g { armed = false }) i i gs)

pub guard_name-release : (i j : ℕ) (gs : Guards) → guard_name j (release i gs).1 ≡ guard_name j gs
unfolding guard_name release
guard_name-release i j gs = elim (Option-cases (get_elem? gs i)) [
  | inl e ↦ ground (arith, e)
  | inr (g, e) ↦ ground (arith, e, get_elem?-set gs i j (record g { strong = g.strong - 1 }) g e)
]

pub guard_name-length : (gs : Guards) → guard_name (length gs) gs ≡ none
unfolding guard_name
guard_name-length gs = ground (arith, get_elem?-length gs)

-- A new guard whose only handle goes sends its name.
pub release-new_guard :
    (name : Str) (gs : Guards) → (release (new_guard name gs).0 (new_guard name gs).1).0 ≡ some name
unfolding release new_guard
release-new_guard name gs =
    ground (
      arith,
      get_elem?-append_last gs (record { name = name; armed = true; strong = 1 }) (length gs),
    )
