-- ===== src/Clock/Timers.antt =====
-- The clock's task, its timers and the future that waits for one: rosrust-async/src/clock/mod.rs and
-- sleep.rs. The task's `select!` is a list of events, in the order in which it takes them.
use rosrust_async.Base.{
  ℕ, ◌≡◌, ◌⊎◌, Bool, true, false, ◌||◌, if◌then◌else◌, Option, none, some, List, [], ◌∷◌, ◌++◌,
}
use rosrust_async.Clock.Encoded.{Time, encode_time, decode_time}

-- `Ord` of rosrust's `Time`, and `Time + Duration` with `Duration::max` and the zero duration.
pub record TimeOps : Type 1 where
  pub leb : Time → Time → Bool
  pub leb_refl : (a : Time) → leb a a ≡ true
  pub leb_trans : (a b c : Time) → leb a b ≡ true → leb b c ≡ true → leb a c ≡ true
  pub leb_total : (a b : Time) → (leb a b ≡ true) ⊎ (leb b a ≡ true)
  pub Duration : Type 0
  pub add : Time → Duration → Time
  pub at_least_zero : Duration → Duration

-- A waker is named by a number.
pub record TimerEntry : Type 0 where
  pub deadline : Time
  pub waker : ℕ

-- `BinaryHeap<Reverse<TimerEntry>>`, which hands out a least deadline first: the entries in order.
-- Of equal deadlines the older one is first here.
abbrev pub TimerQueue : Type 0
TimerQueue = List TimerEntry

-- The word that all handles read, whether the task still takes timers, the task's own queue, the
-- wakers notified with the time at which they were, and whether the task runs.
pub record ClockState : Type 0 where
  pub time : ℕ
  pub timers : TimerQueue
  pub notified : List (TimerEntry × Time)
  pub running : Bool

-- One round of `select!`. A tick has the time of its message; the rest of the errors of the
-- subscriber end the task as `failed`.
pub data ClockEvent : Type 0 where
  cancelled timers_closed data_closed lagged failed : ClockEvent
  timer : TimerEntry → ClockEvent
  tick : Time → ClockEvent

module _ (ops : TimeOps) where
  open ops use {leb, Duration, add, at_least_zero}

  unfoldable pub push : TimerEntry → TimerQueue → TimerQueue
  push e [] = e ∷ []
  push e (x ∷ q) = if leb x.deadline e.deadline then x ∷ push e q else e ∷ x ∷ q

  -- The loop of `on_tick`: the entries that it notifies, and those that it leaves.
  unfoldable pub pop_due : Time → TimerQueue → TimerQueue × TimerQueue
  pop_due now [] = ([], [])
  pop_due now (x ∷ q) =
      let rest = pop_due now q in if leb x.deadline now then (x ∷ rest.0, rest.1) else ([], x ∷ q)

  unfoldable pub stamp : Time → TimerQueue → List (TimerEntry × Time)
  stamp now [] = []
  stamp now (x ∷ q) = (x, now) ∷ stamp now q

  unfoldable pub on_tick : Time → ClockState → ClockState
  unfolding stamp
  on_tick now s = record s {
    time = encode_time now;
    timers = (pop_due now s.timers).1;
    notified = stamp now (pop_due now s.timers).0 ++ s.notified;
  }

  -- The task is over: the timers that are left, and those still in the channel, are all notified.
  unfoldable pub finish : List TimerEntry → ClockState → ClockState
  unfolding stamp
  finish channel s = record s {
    timers = [];
    notified = stamp (decode_time s.time) (s.timers ++ channel) ++ s.notified;
    running = false;
  }

  -- `channel` is what the timer channel holds when the task ends.
  unfoldable pub step : List TimerEntry → ClockEvent → ClockState → ClockState
  unfolding on_tick finish
  step channel cancelled s = finish channel s
  step channel timers_closed s = finish channel s
  step channel data_closed s = finish channel s
  step channel failed s = finish channel s
  step channel lagged s = s
  step channel (timer e) s = record s { timers = push e s.timers }
  step channel (tick now) s = on_tick now s

  unfoldable pub run : List TimerEntry → List ClockEvent → ClockState → ClockState
  unfolding step
  run channel [] s = s
  run channel (e ∷ events) s = if s.running then run channel events (step channel e s) else s

  abbrev pub now : ClockState → Time
  now s = decode_time s.time

  pub data Poll : Type 0 where
    ready pending : Poll

  -- `SleepFuture`: the deadline, and the waker that it registered.
  pub record SleepFuture : Type 0 where
    pub deadline : Time
    pub waker : Option ℕ

  unfoldable pub sleep_until : Time → SleepFuture
  sleep_until deadline = record { deadline = deadline; waker = none }

  unfoldable pub sleep : Duration → ClockState → SleepFuture
  unfolding sleep_until
  sleep duration s = sleep_until (add (now s) (at_least_zero duration))

  -- `poll` with the clock's time `t`, the channel closed or not before and at the sending, and a
  -- waker of its own: the result, the future, and the timer that it sends.
  unfoldable pub poll :
      ClockState → Bool → Bool → ℕ → SleepFuture → Poll × SleepFuture × Option TimerEntry
  poll s closed closed_then waker f =
      if leb f.deadline (now s) || closed then (ready, f, none) else elim f.waker [
        | some w ↦ (pending, f, none)
        | none ↦ if closed_then then (ready, f, none) else (
          pending,
          record f { waker = some waker },
          some (record { deadline = f.deadline; waker = waker }),
        )
      ]

  -- `Rate`: the next deadline as a word.
  pub record Rate : Type 0 where
    pub interval : Duration
    pub next : ℕ

  unfoldable pub new_rate : ClockState → Duration → Rate
  new_rate s interval = record { interval = interval; next = encode_time (now s) }

  unfoldable pub rate_sleep : Rate → SleepFuture × Rate
  unfolding sleep_until
  rate_sleep r =
      let deadline = add (decode_time r.next) r.interval in
      (sleep_until deadline, record r { next = encode_time deadline })
