-- ===== src/Clock/Tests.antt =====
-- The clock with times ordered by seconds and nanoseconds, and whole seconds as durations.
use rosrust_async.Base.{
  ℕ, ◌+◌, ◌^◌, ◌<◌, ◌≡◌, ◌⊎◌, inl, refl, Bool, true, false, ◌||◌, ◌&&◌, ◌==◌, ltb, leb, none, some,
  List, [], ◌∷◌, ◌++◌, arith,
}
use mathlib.Core.List.Memᴰ.{head}
use rosrust_async.Clock.Encoded.{Time, IsTime, encode_time, decode_time}
use rosrust_async.Clock.Timers.{
  TimeOps, TimerEntry, ClockState, on_tick, run, poll, stamp, cancelled, timer, tick, pending,
}
use rosrust_async.Clock.Firing.{Due, NotDue, Kept, on_tick_effect, run-Kept}
use rosrust_async.Clock.Waking.{IsWoken, run-IsWoken, late_timer}

abbrev time_leb : Time → Time → Bool
time_leb a b = ltb a.sec b.sec || ((a.sec == b.sec) && leb a.nsec b.nsec)

time_leb_refl : (a : Time) → time_leb a a ≡ true
time_leb_refl a = ground arith

time_leb_trans : (a b c : Time) → time_leb a b ≡ true → time_leb b c ≡ true → time_leb a c ≡ true
time_leb_trans a b c h k = ground arith

time_leb_total : (a b : Time) → (time_leb a b ≡ true) ⊎ (time_leb b a ≡ true)
time_leb_total a b = ground arith

abbrev ops : TimeOps
ops = record {
  leb = time_leb;
  leb_refl = time_leb_refl;
  leb_trans = time_leb_trans;
  leb_total = time_leb_total;
  Duration = ℕ;
  add = λ t d. record { sec = t.sec + d; nsec = t.nsec };
  at_least_zero = λ d. d;
}

abbrev at : ℕ → Time
at n = record { sec = n; nsec = 0 }

abbrev entry : ℕ → TimerEntry
entry n = record { deadline = at n; waker = n }

at-IsTime : (n : ℕ) → n < 2 ^ 32 → IsTime (at n)
at-IsTime n h = record { sec_fits = h; nsec_fits = omega arith }

-- Two sleepers, at second 1.
abbrev waiting : ClockState
waiting = record {
  time = encode_time (at 1);
  timers = entry 3 ∷ entry 5 ∷ [];
  notified = [];
  running = true;
}

abbrev idle : ClockState
idle = record { time = encode_time (at 1); timers = []; notified = []; running = true }

on_tick_effect_example :
    (fired : List TimerEntry) × (waiting.timers ≡ fired ++ (on_tick ops (at 4) waiting).timers)
    × Due ops (at 4) fired
    × NotDue ops (at 4) (on_tick ops (at 4) waiting).timers
    × ((on_tick ops (at 4) waiting).notified ≡ stamp ops (at 4) fired ++ [])
    × ((on_tick ops (at 4) waiting).time ≡ encode_time (at 4))
on_tick_effect_example = on_tick_effect ops (at 4) waiting ((refl, tt), (tt, tt))

run-Kept_example : Kept ops (run ops [] (timer (entry 4) ∷ tick (at 4) ∷ []) waiting)
run-Kept_example =
    run-Kept ops [] (timer (entry 4) ∷ tick (at 4) ∷ []) waiting (((refl, tt), (tt, tt)), λ on. tt)

run-IsWoken_example : IsWoken ops (entry 3) (run ops [] (cancelled ∷ []) waiting)
unfolding run
run-IsWoken_example =
    run-IsWoken ops (entry 3) [] (cancelled ∷ []) waiting refl refl (inl (head refl))

late_timer_example :
    let s' = run ops [] (tick (at 4) ∷ timer (entry 3) ∷ []) idle in
    (poll ops idle false false 3 (record { deadline = at 3; waker = none })
      ≡ (pending, record { deadline = at 3; waker = some 3 }, some (entry 3)))
    × (s'.timers ≡ entry 3 ∷ [])
    × (s'.notified ≡ [])
    × (ops.leb (at 3) (decode_time s'.time) ≡ true)
unfolding decode_time encode_time
late_timer_example =
    late_timer ops (at 3) (at 4) 3 idle (at-IsTime 4 (omega arith)) refl refl refl refl
