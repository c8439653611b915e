-- ===== src/Teleop/Tests.antt =====
-- A gamepad over numbers, where 0 is at rest, and a simulator that keeps the pen and counts the other calls.
use rosrust_async.Base.{ℕ, ◌+◌, ◌≡◌, refl, List, [], ◌∷◌, ok, ltb, ◌==◌}
use rosrust_async.Teleop.{
  Floats, EventType, disconnected, axis_changed, button_pressed, left_trigger, right_trigger, south,
  left_stick_y, SetPenReq, as_request, default_pen, Simulator, Round, ticked, ended, new_state,
  steer,
}
use rosrust_async.Teleop.Pen.{Shows, InRange}
use rosrust_async.Teleop.Sync.{steer-InSync}

abbrev floats : Floats
floats = record {
  F = ℕ;
  Double = ℕ;
  zero_value = 0;
  is_zero = λ n. n == 0;
  negate = λ n. n;
  exceeds_deadzone = λ n. ltb 1 n;
  scaled = λ n. n + n;
}

-- The pen that is shown, and the number of the other calls.
abbrev World : Type 0
World = SetPenReq × ℕ

abbrev simulator : Simulator ℕ World ℕ
simulator = record {
  reset_sim = λ w. (ok tt, w);
  clear_sim = λ w. (ok tt, (w.0, w.1 + 1));
  set_pen = λ req w. (ok tt, (req, w.1));
  set_param = λ name n w. (ok tt, (w.0, w.1 + 1));
  cmd_vel = λ t w. (ok tt, (w.0, w.1 + 1));
  random = λ w. (ok (1, 2, 3), (w.0, w.1 + 1));
}

abbrev shows : Shows simulator
shows = record {
  shown = λ w. w.0;
  set_pen_shown = λ req w e. refl;
  clear_sim_keeps = λ w. refl;
  set_param_keeps = λ name n w. refl;
  cmd_vel_keeps = λ t w. refl;
  random_keeps = λ w. refl;
}

-- One whose pen is not the program's yet.
abbrev world : World
world = (record { r = 0; g = 0; b = 0; width = 9; off = 0 }, 0)

abbrev events : List (ℕ × EventType ℕ)
events =
    (7, button_pressed left_trigger)
    ∷ (7, button_pressed right_trigger)
    ∷ (8, disconnected)
    ∷ (7, button_pressed south)
    ∷ (7, axis_changed left_stick_y 5)
    ∷ []

abbrev rounds : List (Round ℕ)
rounds = ticked events ∷ ticked [] ∷ ended ∷ ticked events ∷ []

-- The pen cannot become thinner, becomes thicker and is let down; the turtle moves in each round, and three
-- parameters are set at the start.
steer_runs :
    (steer floats simulator 7 rounds (new_state floats simulator, world)).1.1
    ≡ (record { r = 187; g = 187; b = 191; width = 2; off = 0 }, 5)
unfolding steer rosrust_async.Teleop.set_up rosrust_async.Teleop.set_background
    rosrust_async.Teleop.main_loop rosrust_async.Teleop.tick rosrust_async.Teleop.on_events
    rosrust_async.Teleop.of_gamepad rosrust_async.Teleop.on_event rosrust_async.Teleop.on_button
    rosrust_async.Teleop.send_pen rosrust_async.Teleop.send_if rosrust_async.Teleop.on_axis
    rosrust_async.Teleop.send_velocity
steer_runs = refl

steer-InSync_example :
    let x = (steer floats simulator 7 rounds (new_state floats simulator, world)).1 in
    InRange x.0.pen × (shows.shown x.1 ≡ as_request x.0.pen)
unfolding steer rosrust_async.Teleop.set_up rosrust_async.Teleop.set_background
    rosrust_async.Teleop.main_loop rosrust_async.Teleop.tick rosrust_async.Teleop.on_events
    rosrust_async.Teleop.of_gamepad rosrust_async.Teleop.on_event rosrust_async.Teleop.on_button
    rosrust_async.Teleop.send_pen rosrust_async.Teleop.send_if rosrust_async.Teleop.on_axis
    rosrust_async.Teleop.send_velocity
steer-InSync_example = steer-InSync floats simulator shows 7 rounds world refl
