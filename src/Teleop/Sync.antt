-- ===== src/Teleop/Sync.antt =====
-- The pen of the program and the pen of the simulator: examples/turtle_teleop.rs.
use rosrust_async.Base.{ℕ, ◌≡◌, refl, Bool, true, false, List, [], ◌∷◌, Result, ok, err, arith, ◌∙◌}
use rosrust_async.Base.Action.{Action, next, on_world}
use rosrust_async.Teleop.{
  Floats, EventType, as_request, Simulator, TeleopState, on_events, set_background, send_if,
  send_pen, send_velocity, tick, Round, ticked, ended, new_state, set_up, main_loop, steer,
}
use rosrust_async.Teleop.Pen.{Shows, InRange, Good, on_events-Good}

module _ (floats : Floats) {W E : Type 0} (sim : Simulator floats.Double W E)
    (shows : Shows sim) where
  open shows use {shown}
  open floats use {F}

  InSync : TeleopState floats sim × W → Type 0
  InSync (s, w) = InRange s.pen × (shown w ≡ as_request s.pen)

  send_if-InSync :
      (b : Bool) (m : Action W E (Unit {0}))
      → ((w : W) → shown (m w).1 ≡ shown w)
      → (x : TeleopState floats sim × W) → InSync x
      → InSync (send_if floats sim b m x).1
  unfolding send_if InSync
  send_if-InSync true m keeps (s, w) (range, same) = (range, keeps w ∙ same)
  send_if-InSync false m keeps x sync = sync

  after_pen-InSync :
      (s : TeleopState floats sim) (p : Result E (Unit {0}) × W)
      → InRange s.pen
      → (p.0 ≡ ok tt → shown p.1 ≡ as_request s.pen)
      → (next (p.0, (s, p.1)) (λ _. send_velocity floats sim s)).0 ≡ ok tt
      → InSync (next (p.0, (s, p.1)) (λ _. send_velocity floats sim s)).1
  unfolding send_velocity InSync
  after_pen-InSync s (ok u, w) range set done =
      send_if-InSync _ (sim.cmd_vel _) (shows.cmd_vel_keeps _) (s, w) (range, set refl)
  after_pen-InSync s (err e, w) range set done = absurd (cc)

  sent-InSync :
      (b : Bool) (s : TeleopState floats sim) (w : W)
      → s.pen_updated ≡ b
      → Good floats sim shows (s, w)
      → (next
          (send_if floats sim b (sim.set_pen (as_request s.pen)) (s, w))
          (λ _. send_velocity floats sim s)).0
        ≡ ok tt
      → InSync
          (next
            (send_if floats sim b (sim.set_pen (as_request s.pen)) (s, w))
            (λ _. send_velocity floats sim s)).1
  unfolding send_if Good
  sent-InSync false s w e (range, same) done =
      after_pen-InSync s (ok tt, w) range (λ _. same e) done
  sent-InSync true s w e (range, same) done =
      after_pen-InSync s (sim.set_pen (as_request s.pen) w) range
        (shows.set_pen_shown (as_request s.pen) w) done

  rest-InSync :
      (p : Result E (Unit {0}) × (TeleopState floats sim × W))
      → Good floats sim shows p.1
      → (next p (λ _ x. next (send_pen floats sim x.0 x) (λ _. send_velocity floats sim x.0))).0
        ≡ ok tt
      → InSync
          (next p (λ _ x. next (send_pen floats sim x.0 x) (λ _. send_velocity floats sim x.0))).1
  unfolding send_pen
  rest-InSync (ok u, (s, w)) good done = sent-InSync s.pen_updated s w refl good done
  rest-InSync (err e, x) good done = absurd (cc)

  tick-InSync :
      (gamepad_id : ℕ) (events : List (ℕ × EventType F)) (x : TeleopState floats sim × W)
      → InSync x
      → (tick floats sim gamepad_id events x).0 ≡ ok tt
      → InSync (tick floats sim gamepad_id events x).1
  unfolding tick Good InSync
  tick-InSync gamepad_id events (s, w) (range, same) done =
      let fresh : TeleopState floats sim = record s {
        pen_updated = false;
        velocity_updated = false;
      } in
      rest-InSync (on_events floats sim gamepad_id events (fresh, w))
        (on_events-Good floats sim shows gamepad_id events (fresh, w) (range, λ _. same)) done

  -- What holds after the first of two steps, if it goes well, and is carried over the second.
  next-ok :
      (P Q : TeleopState floats sim × W → Type 0)
      (p : Result E (Unit {0}) × (TeleopState floats sim × W))
      (f : TeleopState floats sim × W → Result E (Unit {0}) × (TeleopState floats sim × W))
      → (p.0 ≡ ok tt → P p.1)
      → ((x : TeleopState floats sim × W) → P x → (f x).0 ≡ ok tt → Q (f x).1)
      → (next p (λ _. f)).0 ≡ ok tt
      → Q (next p (λ _. f)).1
  next-ok P Q (ok u, x) f first second done = second x (first refl) done
  next-ok P Q (err e, x) f first second done = absurd (cc)

  main_loop-InSync :
      (gamepad_id : ℕ) (rounds : List (Round F)) (x : TeleopState floats sim × W)
      → InSync x
      → (main_loop floats sim gamepad_id rounds x).0 ≡ ok tt
      → InSync (main_loop floats sim gamepad_id rounds x).1
  unfolding main_loop
  main_loop-InSync gamepad_id [] x sync done = sync
  main_loop-InSync gamepad_id (ended ∷ rounds) x sync done = sync
  main_loop-InSync gamepad_id (ticked events ∷ rounds) x sync done =
      next-ok InSync InSync (tick floats sim gamepad_id events x)
        (main_loop floats sim gamepad_id rounds) (tick-InSync gamepad_id events x sync)
        (main_loop-InSync gamepad_id rounds) done

  abbrev Ranged : TeleopState floats sim × W → Type 0
  Ranged x = InRange x.0.pen

  set_up-InSync :
      (w : W)
      → (set_up floats sim (new_state floats sim, w)).0 ≡ ok tt
      → InSync (set_up floats sim (new_state floats sim, w)).1
  unfolding set_up InSync
  set_up-InSync w done =
      next-ok Ranged InSync
        (on_world (set_background floats sim (69, 86, 255)) (new_state floats sim, w)) _
        (λ _. (omega arith, omega arith))
        (λ x range.
          next-ok Ranged InSync (on_world sim.reset_sim x) _ (λ _. range)
            (λ (s, v) range' set. (range', shows.set_pen_shown (as_request s.pen) v set)))
        done

  -- The simulator shows the pen that it was set to last, and no other call changes that. From the
  -- start of the program with a default pen, over whatever rounds with whatever events from
  -- whatever gamepads, if no call fails: at their end the simulator shows the program's pen, with a
  -- width from 1 to 30, which never wraps round.
  pub steer-InSync :
      (gamepad_id : ℕ) (rounds : List (Round F)) (w : W)
      → (steer floats sim gamepad_id rounds (new_state floats sim, w)).0 ≡ ok tt
      → let x = (steer floats sim gamepad_id rounds (new_state floats sim, w)).1 in
        InRange x.0.pen × (shown x.1 ≡ as_request x.0.pen)
  unfolding steer InSync
  steer-InSync gamepad_id rounds w done =
      next-ok InSync InSync (set_up floats sim (new_state floats sim, w))
        (main_loop floats sim gamepad_id rounds) (set_up-InSync w)
        (main_loop-InSync gamepad_id rounds) done
