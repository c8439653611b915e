-- ===== src/Node/Guards/Handles.antt =====
-- The handles of one registration over their life: each owner of a handle may clone or drop it, by which the
-- guard that they share is retained or released (rosrust-async/src/node/actors).
use rosrust_async.Base.{
  ℕ, ◌-◌, ◌+◌, ◌<◌, ◌==◌, ◌≡◌, refl, Bool, true, false, not, ◌&&◌, if◌then◌else◌, Option, none,
  some, List, [], ◌∷◌, get_elem?, get_elem?-set, Str, arith, Bool-cases, Option-cases, inl, inr,
}
use rosrust_async.Node.Guards.{Guard, Guards, is_alive, retain, release, get_elem?-change}

pub data HandleEvent : Type 0 where
  cloned dropped : HandleEvent

-- A guard without handles has nobody who could clone or drop one.
unfoldable pub handle_event : HandleEvent → ℕ → Guards → Option Str × Guards
handle_event cloned i gs = if is_alive i gs then (none, retain i gs) else (none, gs)
handle_event dropped i gs = if is_alive i gs then release i gs else (none, gs)

abbrev pub sent_by : Option Str → List Str → List Str
sent_by none rest = rest
sent_by (some name) rest = name ∷ rest

-- The names that are sent to the actor, and the guards after it.
unfoldable pub run_handles : List HandleEvent → ℕ → Guards → List Str × Guards
unfolding handle_event
run_handles [] i gs = ([], gs)
run_handles (event ∷ events) i gs =
    let (message, gs') = handle_event event i gs in
    let rest = run_handles events i gs' in (sent_by message rest.0, rest.1)

run_handles-dead :
    (events : List HandleEvent) (i : ℕ) (gs : Guards)
    → is_alive i gs ≡ false
    → run_handles events i gs ≡ ([], gs)
unfolding run_handles handle_event
run_handles-dead [] i gs dead = refl
run_handles-dead (cloned ∷ events) i gs dead = rw (dead, run_handles-dead events i gs dead) refl
run_handles-dead (dropped ∷ events) i gs dead = rw (dead, run_handles-dead events i gs dead) refl

is_alive-strong :
    (i : ℕ) (gs : Guards) (g : Guard)
    → get_elem? gs i ≡ some g
    → 0 < g.strong
    → is_alive i gs ≡ true
unfolding is_alive
is_alive-strong i gs g e many = ground (arith, e)

get_elem?-retain :
    (i : ℕ) (gs : Guards) (g : Guard)
    → get_elem? gs i ≡ some g
    → get_elem? (retain i gs) i ≡ some (record g { strong = g.strong + 1 })
unfolding retain
get_elem?-retain i gs g e =
    ground (arith, e, get_elem?-change (λ g'. record g' { strong = g'.strong + 1 }) i i gs)

get_elem?-release :
    (i : ℕ) (gs : Guards) (g : Guard)
    → get_elem? gs i ≡ some g
    → get_elem? (release i gs).1 i ≡ some (record g { strong = g.strong - 1 })
unfolding release
get_elem?-release i gs g e =
    ground (arith, e, get_elem?-set gs i i (record g { strong = g.strong - 1 }) g e)

release-last :
    (i : ℕ) (gs : Guards) (g : Guard)
    → get_elem? gs i ≡ some g
    → (release i gs).0 ≡ (if (g.strong == 1) && g.armed then some g.name else none)
unfolding release
release-last i gs g e = rw (release, e) refl

is_alive-last :
    (i : ℕ) (gs : Guards) (g : Guard)
    → get_elem? gs i ≡ some g
    → (g.strong == 1) ≡ true
    → is_alive i (release i gs).1 ≡ false
unfolding is_alive
is_alive-last i gs g e one = ground (arith, get_elem?-release i gs g e, one)

sent_by-last :
    (armed : Bool) (name : Str)
    → sent_by (if true && armed then some name else none) []
      ≡ (if armed && not false then name ∷ [] else [])
sent_by-last true name = refl
sent_by-last false name = refl

-- Whatever clones and drops the owners of the handles make of a guard that is in use, its name is sent
-- exactly if it is armed and no handle is left at the end, and then once.
pub run_handles-once :
    (events : List HandleEvent) (i : ℕ) (gs : Guards) (g : Guard)
    → get_elem? gs i ≡ some g
    → 0 < g.strong
    → let x = run_handles events i gs in
      x.0 ≡ (if g.armed && not (is_alive i x.1) then g.name ∷ [] else [])
unfolding run_handles handle_event
run_handles-once [] i gs g e many = ground (arith, is_alive-strong i gs g e many)
run_handles-once (cloned ∷ events) i gs g e many =
    let more =
      run_handles-once events i (retain i gs) (record g { strong = g.strong + 1 })
        (get_elem?-retain i gs g e) (omega arith) in
    rw (is_alive-strong i gs g e many) more
run_handles-once (dropped ∷ events) i gs g e many = elim (Bool-cases (g.strong == 1)) [
  | inl one ↦
      let dead = is_alive-last i gs g e one in
      rw
        (
          is_alive-strong i gs g e many,
          release-last i gs g e,
          one,
          run_handles-dead events i (release i gs).1 dead,
          dead,
        )
        (sent_by-last g.armed g.name)
  | inr others ↦
      let more =
        run_handles-once events i (release i gs).1 (record g { strong = g.strong - 1 })
          (get_elem?-release i gs g e) (ground arith) in
      rw (is_alive-strong i gs g e many, release-last i gs g e, others) more
]

-- A handle that was cloned from a live one and goes leaves the guard in use.
pub release-retain :
    (i : ℕ) (gs : Guards)
    → is_alive i gs ≡ true
    → ((release i (retain i gs)).0 ≡ none) × (is_alive i (release i (retain i gs)).1 ≡ true)
release-retain i gs alive = elim (Option-cases (get_elem? gs i)) [
  | inl e ↦ absurd (unfold is_alive in ground (arith, e, alive))
  | inr (g, e) ↦
      let kept = get_elem?-retain i gs g e in
      (
        rw (release-last i (retain i gs) (record g { strong = g.strong + 1 }) kept)
            (unfold is_alive in ground (arith, e, alive)),
        unfold is_alive in
            ground (
              arith,
              e,
              alive,
              get_elem?-release i (retain i gs) (record g { strong = g.strong + 1 }) kept,
            ),
      )
]
