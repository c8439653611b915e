-- ===== src/Clock/Firing.antt =====
-- Which timers the clock's task notifies, and when: `on_tick` and the loop of `from_subscriber` in
-- rosrust-async/src/clock/mod.rs.
use rosrust_async.Base.{
  subst, sym, ◌≡◌, refl, inl, inr, true, false, List, [], ◌∷◌, ◌++◌, All, arith, Bool-cases,
}
use rosrust_async.Clock.Encoded.{Time, encode_time}
use rosrust_async.Clock.Timers.{
  TimeOps, TimerEntry, TimerQueue, ClockState, ClockEvent, push, pop_due, stamp, on_tick, finish,
  step, run, cancelled, timers_closed, data_closed, lagged, failed, timer, tick,
}

module _ (ops : TimeOps) where
  -- No entry of the queue is due before `t`.
  abbrev pub NotBefore : Time → TimerQueue → Type 0
  NotBefore t q = All (λ e. ops.leb t e.deadline ≡ true) q

  abbrev pub IsSorted : TimerQueue → Type 0
  IsSorted [] = Unit
  IsSorted (e ∷ q) = NotBefore e.deadline q × IsSorted q

  abbrev pub Due : Time → TimerQueue → Type 0
  Due t q = All (λ e. ops.leb e.deadline t ≡ true) q

  abbrev pub NotDue : Time → TimerQueue → Type 0
  NotDue t q = All (λ e. ops.leb e.deadline t ≡ false) q

  leb_flip : (a b : Time) → ops.leb a b ≡ false → ops.leb b a ≡ true
  leb_flip a b h = ground (arith, ops.leb_total a b)

  NotBefore-push :
      (t : Time) (e : TimerEntry) (q : TimerQueue)
      → ops.leb t e.deadline ≡ true
      → NotBefore t q
      → NotBefore t (push ops e q)
  unfolding push
  NotBefore-push t e [] h hs = (h, tt)
  NotBefore-push t e (x ∷ q) h hs = elim (Bool-cases (ops.leb x.deadline e.deadline)) [
    | inl le ↦ rw (le) (hs.0, NotBefore-push t e q h hs.1)
    | inr gt ↦ rw (gt) (h, hs)
  ]

  NotBefore-trans :
      (a b : Time) (q : TimerQueue) → ops.leb a b ≡ true → NotBefore b q → NotBefore a q
  NotBefore-trans a b [] h hs = tt
  NotBefore-trans a b (x ∷ q) h hs =
      (ops.leb_trans a b x.deadline h hs.0, NotBefore-trans a b q h hs.1)

  pub push-IsSorted : (e : TimerEntry) (q : TimerQueue) → IsSorted q → IsSorted (push ops e q)
  unfolding push
  push-IsSorted e [] h = (tt, tt)
  push-IsSorted e (x ∷ q) h = elim (Bool-cases (ops.leb x.deadline e.deadline)) [
    | inl le ↦ rw (le) (NotBefore-push x.deadline e q le h.0, push-IsSorted e q h.1)
    | inr gt ↦ rw (gt) (
      (
        leb_flip x.deadline e.deadline gt,
        NotBefore-trans e.deadline x.deadline q (leb_flip x.deadline e.deadline gt) h.0,
      ),
      h,
    )
  ]

  NotDue-after : (t d : Time) (q : TimerQueue) → ops.leb d t ≡ false → NotBefore d q → NotDue t q
  NotDue-after t d [] h hs = tt
  NotDue-after t d (x ∷ q) h hs =
      (ground (arith, ops.leb_trans d x.deadline t hs.0), NotDue-after t d q h hs.1)

  pub pop_due_split : (t : Time) (q : TimerQueue) → q ≡ (pop_due ops t q).0 ++ (pop_due ops t q).1
  unfolding pop_due
  pop_due_split t [] = refl
  pop_due_split t (x ∷ q) = ground (arith, pop_due_split t q)

  pop_due-Due : (t : Time) (q : TimerQueue) → Due t (pop_due ops t q).0
  unfolding pop_due
  pop_due-Due t [] = tt
  pop_due-Due t (x ∷ q) = elim (Bool-cases (ops.leb x.deadline t)) [
    | inl le ↦ rw (le) (le, pop_due-Due t q)
    | inr gt ↦ rw (gt) tt
  ]

  pop_due-NotDue : (t : Time) (q : TimerQueue) → IsSorted q → NotDue t (pop_due ops t q).1
  unfolding pop_due
  pop_due-NotDue t [] h = tt
  pop_due-NotDue t (x ∷ q) h = elim (Bool-cases (ops.leb x.deadline t)) [
    | inl le ↦ rw (le) (pop_due-NotDue t q h.1)
    | inr gt ↦ rw (gt) (gt, NotDue-after t x.deadline q gt h.0)
  ]

  pop_due-IsSorted : (t : Time) (q : TimerQueue) → IsSorted q → IsSorted (pop_due ops t q).1
  unfolding pop_due
  pop_due-IsSorted t [] h = tt
  pop_due-IsSorted t (x ∷ q) h = elim (Bool-cases (ops.leb x.deadline t)) [
    | inl le ↦ rw (le) (pop_due-IsSorted t q h.1)
    | inr gt ↦ rw (gt) h
  ]

  -- On a tick at `t` from a queue in order: the timers are split in two, those due at `t`, which are
  -- notified with `t` in order, and those not due at `t`, which are left; the clock's time is `t`.
  pub on_tick_effect :
      (t : Time) (s : ClockState)
      → IsSorted s.timers
      → (fired : TimerQueue) × (s.timers ≡ fired ++ (on_tick ops t s).timers)
        × Due t fired
        × NotDue t (on_tick ops t s).timers
        × ((on_tick ops t s).notified ≡ stamp ops t fired ++ s.notified)
        × ((on_tick ops t s).time ≡ encode_time t)
  unfolding on_tick
  on_tick_effect t s h = (
    (pop_due ops t s.timers).0,
    pop_due_split t s.timers,
    pop_due-Due t s.timers,
    pop_due-NotDue t s.timers h,
    refl,
    refl,
  )

  -- Each entry was notified at its deadline or later.
  abbrev pub Timely : List (TimerEntry × Time) → Type 0
  Timely notified = All (λ n. ops.leb n.0.deadline n.1 ≡ true) notified

  Timely-stamp :
      (t : Time) (q : TimerQueue) (n : List (TimerEntry × Time))
      → Due t q
      → Timely n
      → Timely (stamp ops t q ++ n)
  unfolding stamp
  Timely-stamp t [] n h hs = hs
  Timely-stamp t (x ∷ q) n h hs = (h.0, Timely-stamp t q n h.1 hs)

  abbrev pub Kept : ClockState → Type 0
  Kept s = IsSorted s.timers × (s.running ≡ true → Timely s.notified)

  step-Kept :
      (channel : List TimerEntry) (e : ClockEvent) (s : ClockState)
      → s.running ≡ true
      → Kept s
      → Kept (step ops channel e s)
  unfolding step finish on_tick
  step-Kept channel cancelled s on h = (tt, λ bad. ground arith)
  step-Kept channel timers_closed s on h = (tt, λ bad. ground arith)
  step-Kept channel data_closed s on h = (tt, λ bad. ground arith)
  step-Kept channel failed s on h = (tt, λ bad. ground arith)
  step-Kept channel lagged s on h = h
  step-Kept channel (timer e) s on h = (push-IsSorted e s.timers h.0, h.1)
  step-Kept channel (tick t) s on h = (
    pop_due-IsSorted t s.timers h.0,
    λ on'. Timely-stamp t (pop_due ops t s.timers).0 s.notified (pop_due-Due t s.timers) (h.1 on),
  )

  pub run_on :
      (channel : List TimerEntry) (e : ClockEvent) (events : List ClockEvent) (s : ClockState)
      → s.running ≡ true
      → run ops channel (e ∷ events) s ≡ run ops channel events (step ops channel e s)
  unfolding run
  run_on channel e events s on = ground (arith, on)

  pub run_off :
      (channel : List TimerEntry) (events : List ClockEvent) (s : ClockState)
      → s.running ≡ false
      → run ops channel events s ≡ s
  unfolding run
  run_off channel [] s off = refl
  run_off channel (e ∷ events) s off = ground (arith, off)

  -- Whatever events the task takes from a state with its queue in order and no notification too
  -- early, the queue stays in order, and as long as the task runs no timer has been notified before
  -- its deadline.
  pub run-Kept :
      (channel : List TimerEntry) (events : List ClockEvent) (s : ClockState)
      → Kept s
      → Kept (run ops channel events s)
  unfolding run
  run-Kept channel [] s h = h
  run-Kept channel (e ∷ events) s h = elim (Bool-cases s.running) [
    | inl on ↦
        subst Kept (sym (run_on channel e events s on))
          (run-Kept channel events (step ops channel e s) (step-Kept channel e s on h))
    | inr off ↦ subst Kept (sym (run_off channel (e ∷ events) s off)) h
  ]
