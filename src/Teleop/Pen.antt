-- ===== src/Teleop/Pen.antt =====
-- What the events of the gamepad make of the pen: examples/turtle_teleop.rs.
use rosrust_async.Base.{
  ℕ, ◌≤◌, ◌≡◌, Bool, true, false, ◌==◌, List, [], ◌∷◌, Str, Result, ok, err, arith, ◌∙◌,
}
use rosrust_async.Base.Action.{Action, next, on_world}
use rosrust_async.Teleop.{
  Floats, EventType, disconnected, connected, axis_changed, button_pressed, other_event, Button,
  north, south, east, west, left_trigger, right_trigger, other_button, left_stick_y, right_stick_x,
  other_axis, PenState, SetPenReq, as_request, Simulator, TeleopState, on_event, on_events,
  of_gamepad, on_button, on_axis, set_background,
}

-- What is relied on of the simulator: it shows the pen that it was set to last, and no other call changes it.
pub record Shows {Double W E : Type 0} (sim : Simulator Double W E) : Type 0 where
  pub shown : W → SetPenReq
  pub set_pen_shown :
      (req : SetPenReq) (w : W) → (sim.set_pen req w).0 ≡ ok tt → shown (sim.set_pen req w).1 ≡ req
  pub clear_sim_keeps : (w : W) → shown (sim.clear_sim w).1 ≡ shown w
  pub set_param_keeps : (name : Str) (n : ℕ) (w : W) → shown (sim.set_param name n w).1 ≡ shown w
  pub cmd_vel_keeps : (t : _) (w : W) → shown (sim.cmd_vel t w).1 ≡ shown w
  pub random_keeps : (w : W) → shown (sim.random w).1 ≡ shown w

abbrev pub InRange : PenState → Type 0
InRange pen = (1 ≤ pen.width) × (pen.width ≤ 30)

module _ (floats : Floats) {W E : Type 0} (sim : Simulator floats.Double W E)
    (shows : Shows sim) where
  open shows use {shown}
  open floats use {F}

  unfoldable pub Good : TeleopState floats sim × W → Type 0
  Good (s, w) = InRange s.pen × (s.pen_updated ≡ false → shown w ≡ as_request s.pen)

  Good-next :
      {A B : Type 0} (r : Result E A × (TeleopState floats sim × W))
      (f : A → Action (TeleopState floats sim × W) E B)
      → Good r.1
      → ((a : A) (x : TeleopState floats sim × W) → Good x → Good (f a x).1)
      → Good (next r f).1
  Good-next (ok a, x) f good step = step a x good
  Good-next (err e, x) f good step = good

  Good-on_world :
      {A : Type 0} (m : Action W E A)
      → ((w : W) → shown (m w).1 ≡ shown w)
      → (x : TeleopState floats sim × W) → Good x
      → Good (on_world m x).1
  unfolding Good
  Good-on_world m keeps (s, w) (range, same) = (range, λ e. rw (keeps w) (same e))

  next-keeps :
      {A B : Type 0} (r : Result E A × W) (f : A → Action W E B) (w : W)
      → shown r.1 ≡ shown w
      → ((a : A) (v : W) → shown (f a v).1 ≡ shown v)
      → shown (next r f).1 ≡ shown w
  next-keeps (ok a, v) f w same keeps = keeps a v ∙ same
  next-keeps (err e, v) f w same keeps = same

  set_background-keeps : (c : ℕ × ℕ × ℕ) (w : W) → shown (set_background floats sim c w).1 ≡ shown w
  unfolding set_background
  set_background-keeps (r, g, b) w =
      next-keeps (sim.set_param _ r w) _ w (shows.set_param_keeps _ r w) (λ _ v.
        next-keeps (sim.set_param _ g v) _ v (shows.set_param_keeps _ g v)
          (λ _ u. shows.set_param_keeps _ b u))

  on_button-Good :
      (button : Button) (x : TeleopState floats sim × W)
      → Good x
      → Good (on_button floats sim button x).1
  unfolding on_button Good
  on_button-Good west x good = Good-on_world sim.clear_sim shows.clear_sim_keeps x good
  on_button-Good east x good =
      Good-next (on_world sim.random x) _ (Good-on_world sim.random shows.random_keeps x good)
        (λ c (s, w) (range, same). (range, λ e. absurd (cc)))
  on_button-Good north x good =
      Good-next (on_world sim.random x) _ (Good-on_world sim.random shows.random_keeps x good)
        (λ c y good'.
          Good-next (on_world (set_background floats sim c) y) _
            (Good-on_world (set_background floats sim c) (set_background-keeps c) y good')
            (λ _ z. Good-on_world sim.clear_sim shows.clear_sim_keeps z))
  on_button-Good south (s, w) (range, same) = (range, λ e. absurd (cc))
  on_button-Good left_trigger (s, w) ((low, high), same) =
      ((ground arith, ground arith), λ e. ground (arith, same))
  on_button-Good right_trigger (s, w) ((low, high), same) =
      ((ground arith, ground arith), λ e. ground (arith, same))
  on_button-Good other_button x good = good

  on_event-Good :
      (event : EventType F) (x : TeleopState floats sim × W)
      → Good x
      → Good (on_event floats sim event x).1
  unfolding on_event on_axis Good
  on_event-Good disconnected (s, w) (range, same) = (range, λ e. absurd (cc))
  on_event-Good connected x good = good
  on_event-Good (axis_changed left_stick_y value) (s, w) good = good
  on_event-Good (axis_changed right_stick_x value) (s, w) good = good
  on_event-Good (axis_changed other_axis value) (s, w) good = good
  on_event-Good (button_pressed button) x good = on_button-Good button x good
  on_event-Good other_event x good = good

  of_gamepad-Good :
      (mine : Bool) (event : EventType F) (x : TeleopState floats sim × W)
      → Good x
      → Good (of_gamepad floats sim mine event x).1
  unfolding of_gamepad
  of_gamepad-Good true event x good = on_event-Good event x good
  of_gamepad-Good false event x good = good

  pub on_events-Good :
      (gamepad_id : ℕ) (events : List (ℕ × EventType F)) (x : TeleopState floats sim × W)
      → Good x
      → Good (on_events floats sim gamepad_id events x).1
  unfolding on_events
  on_events-Good gamepad_id [] x good = good
  on_events-Good gamepad_id ((id, event) ∷ events) x good =
      Good-next (of_gamepad floats sim (id == gamepad_id) event x)
        (λ _. on_events floats sim gamepad_id events)
        (of_gamepad-Good (id == gamepad_id) event x good)
        (λ _ y. on_events-Good gamepad_id events y)
