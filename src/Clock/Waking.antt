-- ===== src/Clock/Waking.antt =====
-- That no timer is forgotten, and the timer that comes after its tick: rosrust-async/src/clock/mod.rs
-- and sleep.rs.
use rosrust_async.Base.{
  subst, sym, ap, ◌∙◌, ℕ, ◌≡◌, refl, ◌⊎◌, inl, inr, true, false, none, some, List, [], ◌∷◌, ◌++◌,
  arith, Bool-cases,
}
use mathlib.Core.List.{Memᴰ}
use mathlib.Core.List.Memᴰ.{append_left, append_right, append_cases, head, tail}
use rosrust_async.Clock.Encoded.{Time, decode_time, IsTime, decode_time-encode_time}
use rosrust_async.Clock.Timers.{
  TimeOps, TimerEntry, TimerQueue, ClockState, ClockEvent, push, pop_due, stamp, on_tick, finish,
  step, run, poll, pending, cancelled, timers_closed, data_closed, lagged, failed, timer, tick,
}
use rosrust_async.Clock.Firing.{pop_due_split, run_on, run_off}

module _ (ops : TimeOps) where
  -- Its waker was notified at some time.
  abbrev pub IsWoken : TimerEntry → ClockState → Type 0
  IsWoken e s = (t : Time) × Memᴰ (e, t) s.notified

  abbrev pub Waits : TimerEntry → ClockState → Type 0
  Waits e s = Memᴰ e s.timers

  -- While the task runs it holds the entry; the entry is waiting or was woken.
  abbrev pub Held : TimerEntry → ClockState → Type 0
  Held e s = ((s.running ≡ true) × Waits e s) ⊎ IsWoken e s

  stamp-Mem : (e : TimerEntry) (t : Time) (q : TimerQueue) → Memᴰ e q → Memᴰ (e, t) (stamp ops t q)
  unfolding stamp
  stamp-Mem e t [] m = elim m [ ]
  stamp-Mem e t (x ∷ q) (head same) = head (ap (λ y. (y, t)) same)
  stamp-Mem e t (x ∷ q) (tail m) = tail (stamp-Mem e t q m)

  push-Mem : (e x : TimerEntry) (q : TimerQueue) → Memᴰ e (x ∷ q) → Memᴰ e (push ops x q)
  unfolding push
  push-Mem e x [] m = m
  push-Mem e x (y ∷ q) m = elim (Bool-cases (ops.leb y.deadline x.deadline)) [
    | inl le ↦ rw (le) (swap (λ m'. push-Mem e x q m') m)
    | inr gt ↦ rw (gt) m
  ]
    where
      swap :
          (Memᴰ e (x ∷ q) → Memᴰ e (push ops x q)) → Memᴰ e (x ∷ y ∷ q) → Memᴰ e (y ∷ push ops x q)
      swap k (head same) = tail (k (head same))
      swap k (tail (head same)) = head same
      swap k (tail (tail m')) = tail (k (tail m'))

  woken :
      (e : TimerEntry) (t : Time) (q : TimerQueue) (s s' : ClockState)
      → s'.notified ≡ stamp ops t q ++ s.notified
      → Memᴰ e q ⊎ IsWoken e s
      → IsWoken e s'
  woken e t q s s' eq (inl m) =
      (t, subst (λ n. Memᴰ (e, t) n) (sym eq) (append_left s.notified (stamp-Mem e t q m)))
  woken e t q s s' eq (inr (t', m)) =
      (t', subst (λ n. Memᴰ (e, t') n) (sym eq) (append_right (stamp ops t q) m))

  finish-IsWoken :
      (e : TimerEntry) (channel : List TimerEntry) (s : ClockState)
      → Held e s ⊎ Memᴰ e channel
      → IsWoken e (finish ops channel s)
  unfolding finish
  finish-IsWoken e channel s h =
      woken e (decode_time s.time) (s.timers ++ channel) s (finish ops channel s) refl (sort h)
    where
      sort : Held e s ⊎ Memᴰ e channel → Memᴰ e (s.timers ++ channel) ⊎ IsWoken e s
      sort (inl (inl (on, m))) = inl (append_left channel m)
      sort (inl (inr w)) = inr w
      sort (inr m) = inl (append_right s.timers m)

  step-Held :
      (e : TimerEntry) (channel : List TimerEntry) (event : ClockEvent) (s : ClockState)
      → s.running ≡ true
      → Held e s
      → Held e (step ops channel event s)
  unfolding step on_tick
  step-Held e channel cancelled s on h = inr (finish-IsWoken e channel s (inl h))
  step-Held e channel timers_closed s on h = inr (finish-IsWoken e channel s (inl h))
  step-Held e channel data_closed s on h = inr (finish-IsWoken e channel s (inl h))
  step-Held e channel failed s on h = inr (finish-IsWoken e channel s (inl h))
  step-Held e channel lagged s on h = h
  step-Held e channel (timer x) s on (inl (on', m)) = inl (on', push-Mem e x s.timers (tail m))
  step-Held e channel (timer x) s on (inr w) = inr w
  step-Held e channel (tick t) s on (inr w) =
      inr (woken e t (pop_due ops t s.timers).0 s (on_tick ops t s) refl (inr w))
  step-Held e channel (tick t) s on (inl (on', m)) = sort (
      append_cases (pop_due ops t s.timers).0
        (subst (λ q. Memᴰ e q) (pop_due_split ops t s.timers) m))
    where
      sort :
          Memᴰ e (pop_due ops t s.timers).0 ⊎ Memᴰ e (pop_due ops t s.timers).1
          → Held e (on_tick ops t s)
      sort (inl m') = inr (woken e t (pop_due ops t s.timers).0 s (on_tick ops t s) refl (inl m'))
      sort (inr m') = inl (on', m')

  -- A timer that the running task holds is never forgotten: whatever events come, it still waits in a
  -- task that runs, or it was woken.
  pub run-Held :
      (e : TimerEntry) (channel : List TimerEntry) (events : List ClockEvent) (s : ClockState)
      → Held e s
      → Held e (run ops channel events s)
  unfolding run
  run-Held e channel [] s h = h
  run-Held e channel (event ∷ events) s h = elim (Bool-cases s.running) [
    | inl on ↦
        subst (Held e) (sym (run_on ops channel event events s on))
          (run-Held e channel events (step ops channel event s) (step-Held e channel event s on h))
    | inr off ↦ subst (Held e) (sym (run_off ops channel (event ∷ events) s off)) h
  ]

  channel-IsWoken :
      (e : TimerEntry) (channel : List TimerEntry) (event : ClockEvent) (s : ClockState)
      → Memᴰ e channel
      → ((step ops channel event s).running ≡ s.running) ⊎ IsWoken e (step ops channel event s)
  unfolding step on_tick
  channel-IsWoken e channel cancelled s m = inr (finish-IsWoken e channel s (inr m))
  channel-IsWoken e channel timers_closed s m = inr (finish-IsWoken e channel s (inr m))
  channel-IsWoken e channel data_closed s m = inr (finish-IsWoken e channel s (inr m))
  channel-IsWoken e channel failed s m = inr (finish-IsWoken e channel s (inr m))
  channel-IsWoken e channel lagged s m = inl refl
  channel-IsWoken e channel (timer x) s m = inl refl
  channel-IsWoken e channel (tick t) s m = inl refl

  IsWoken-Held : (e : TimerEntry) (s : ClockState) → s.running ≡ false → Held e s → IsWoken e s
  IsWoken-Held e s off (inl (on, m)) = ground (arith, on, off)
  IsWoken-Held e s off (inr w) = w

  -- When the task is over, nobody is left asleep: from a running task, each timer that it holds and
  -- each timer in its channel when it ends has been woken.
  pub run-IsWoken :
      (e : TimerEntry) (channel : List TimerEntry) (events : List ClockEvent) (s : ClockState)
      → s.running ≡ true
      → (run ops channel events s).running ≡ false
      → Waits e s ⊎ Memᴰ e channel
      → IsWoken e (run ops channel events s)
  run-IsWoken e channel events s on off (inl m) =
      IsWoken-Held e (run ops channel events s) off (run-Held e channel events s (inl (on, m)))
  run-IsWoken e channel [] s on off (inr m) = unfold run in ground (arith, on, off)
  run-IsWoken e channel (event ∷ events) s on off (inr m) = subst (IsWoken e) (sym path) (
      settle (λ on'. run-IsWoken e channel events (step ops channel event s) on' over (inr m))
        (channel-IsWoken e channel event s m))
    where
      path : run ops channel (event ∷ events) s ≡ run ops channel events (step ops channel event s)
      path = run_on ops channel event events s on

      over : (run ops channel events (step ops channel event s)).running ≡ false
      over = subst (λ (x : ClockState). x.running ≡ false) path off

      settle :
          ((step ops channel event s).running ≡ true
            → IsWoken e (run ops channel events (step ops channel event s)))
          → ((step ops channel event s).running ≡ s.running) ⊎ IsWoken e (step ops channel event s)
          → IsWoken e (run ops channel events (step ops channel event s))
      settle k (inl same) = k (same ∙ on)
      settle k (inr w) =
          IsWoken-Held e (run ops channel events (step ops channel event s)) over
            (run-Held e channel events (step ops channel event s) (inr w))

  -- A sleeper polls when the clock, running with no timers, is before its deadline, and the task
  -- takes a tick at or after the deadline before it takes the sleeper's timer: the poll is
  -- pending, and after both the clock is at the deadline or later, yet the timer waits and nothing
  -- more was notified.
  pub late_timer :
      (d t : Time) (waker : ℕ) (s : ClockState)
      → IsTime t
      → s.running ≡ true
      → s.timers ≡ []
      → ops.leb d (decode_time s.time) ≡ false
      → ops.leb d t ≡ true
      → let e : TimerEntry = record { deadline = d; waker = waker } in
        let s' = run ops [] (tick t ∷ timer e ∷ []) s in
        (poll ops s false false waker (record { deadline = d; waker = none })
          ≡ (pending, record { deadline = d; waker = some waker }, some e))
        × (s'.timers ≡ e ∷ [])
        × (s'.notified ≡ s.notified)
        × (ops.leb d (decode_time s'.time) ≡ true)
  unfolding run step on_tick poll pop_due push stamp
  late_timer d t waker s fits on none_waits early reached = (
    ground (arith, early),
    ground (arith, on, none_waits),
    ground (arith, on, none_waits),
    ground (arith, on, reached, decode_time-encode_time t fits),
  )
