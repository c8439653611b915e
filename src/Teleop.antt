-- ===== src/Teleop.antt =====
-- A node that steers a simulated turtle by a gamepad: examples/turtle_teleop.rs. Floating-point numbers, the
-- random colours and the calls of the simulator are parameters; what it calls of the node stands in Node.
pub mod Pen
pub mod Sync
mod Tests
use rosrust_async.Base.{
  ℕ, ◌+◌, ◌-◌, ◌%◌, ◌^◌, Bool, true, false, not, ◌||◌, ◌==◌, ltb, if◌then◌else◌, List, [], ◌∷◌, Str,
  codes, Result, ok, err,
}
use rosrust_async.Base.Action.{Action, ◌>>=◌, ◌>>◌, done, on_world, get_state, modify}

-- A number below 256 in each place.
pub record PenState : Type 0 where
  pub r : ℕ
  pub g : ℕ
  pub b : ℕ
  pub width : ℕ
  pub enabled : Bool

pub record SetPenReq : Type 0 where
  pub r : ℕ
  pub g : ℕ
  pub b : ℕ
  pub width : ℕ
  pub off : ℕ

abbrev pub min_pen_width : ℕ
min_pen_width = 1

abbrev pub max_pen_width : ℕ
max_pen_width = 30

abbrev pub default_pen : PenState
default_pen = record { r = 187; g = 187; b = 191; width = min_pen_width; enabled = false }

abbrev pub as_request : PenState → SetPenReq
as_request pen = record {
  r = pen.r;
  g = pen.g;
  b = pen.b;
  width = pen.width;
  off = if pen.enabled then 0 else 1;
}

pub data Axis : Type 0 where
  left_stick_y right_stick_x other_axis : Axis

pub data Button : Type 0 where
  north south east west left_trigger right_trigger other_button : Button

-- `f32`, as far as the program computes with it: zero, the negation, the comparison of the absolute value with
-- the dead zone, and the scaled value as `f64`.
pub record Floats : Type 1 where
  pub F : Type 0
  pub Double : Type 0
  pub zero_value : F
  pub is_zero : F → Bool
  pub negate : F → F
  pub exceeds_deadzone : F → Bool
  pub scaled : F → Double

pub data EventType (F : Type 0) : Type 0 where
  disconnected connected : EventType F
  axis_changed : Axis → F → EventType F
  button_pressed : Button → EventType F
  other_event : EventType F

-- A round of the loop's `select!`: the interval with the events that wait, or the end, by a signal or by the
-- node's shutdown.
pub data Round (F : Type 0) : Type 0 where
  ticked : List (ℕ × EventType F) → Round F
  ended : Round F

-- Linear x and angular z; the other parts are zero.
pub record Twist (Double : Type 0) : Type 0 where
  pub linear_x : Double
  pub angular_z : Double

-- The calls of the two services, of the parameter server, the publisher, and the random colours.
pub record Simulator (Double W E : Type 0) : Type 0 where
  pub reset_sim : Action W E (Unit {0})
  pub clear_sim : Action W E (Unit {0})
  pub set_pen : SetPenReq → Action W E (Unit {0})
  pub set_param : Str → ℕ → Action W E (Unit {0})
  pub cmd_vel : Twist Double → Action W E (Unit {0})
  pub random : Action W E (ℕ × ℕ × ℕ)

module _ (floats : Floats) {W E : Type 0} (sim : Simulator floats.Double W E) where
  open floats use {F, Double, zero_value, is_zero, negate, exceeds_deadzone, scaled}

  -- With the two flags of a round.
  pub record TeleopState : Type 0 where
    pub pen : PenState
    pub ly : F
    pub rx : F
    pub pen_updated : Bool
    pub velocity_updated : Bool

  abbrev pub Step : Type 0
  Step = Action (TeleopState × W) E (Unit {0})

  set_background : ℕ × ℕ × ℕ → Action W E (Unit {0})
  set_background (r, g, b) = do
    sim.set_param (codes "/turtlesim/background_r") r
    sim.set_param (codes "/turtlesim/background_g") g
    sim.set_param (codes "/turtlesim/background_b") b

  abbrev with_pen : (PenState → PenState) → TeleopState → TeleopState
  with_pen f s = record s { pen = f s.pen; pen_updated = true }

  abbrev colour : ℕ × ℕ × ℕ → PenState → PenState
  colour (r, g, b) pen = record pen { r = r; g = g; b = b }

  -- `u8` arithmetic.
  abbrev thinner : PenState → PenState
  thinner pen = record pen { width = (pen.width + 2 ^ 8 - 1) % 2 ^ 8 }

  abbrev thicker : PenState → PenState
  thicker pen = record pen { width = (pen.width + 1) % 2 ^ 8 }

  on_button : Button → Step
  on_button west = on_world sim.clear_sim
  on_button east = do c ← on_world sim.random; modify (with_pen (colour c))
  on_button north = do c ← on_world sim.random; on_world (set_background c); on_world sim.clear_sim
  on_button south = modify (with_pen (λ pen. record pen { enabled = not pen.enabled }))
  on_button left_trigger =
      modify (λ s. if ltb min_pen_width s.pen.width then with_pen thinner s else s)
  on_button right_trigger =
      modify (λ s. if ltb s.pen.width max_pen_width then with_pen thicker s else s)
  on_button other_button = done tt

  on_axis : Axis → F → TeleopState → TeleopState
  on_axis left_stick_y value s = record s {
    ly = if exceeds_deadzone value then value else zero_value;
    velocity_updated = true;
  }
  on_axis right_stick_x value s = record s {
    rx = if exceeds_deadzone value then negate value else zero_value;
    velocity_updated = true;
  }
  on_axis other_axis value s = s

  on_event : EventType F → Step
  on_event disconnected = modify (λ s. record s {
    pen = record s.pen { enabled = false };
    ly = zero_value;
    rx = zero_value;
    pen_updated = true;
    velocity_updated = true;
  })
  on_event connected = done tt
  on_event (axis_changed axis value) = modify (on_axis axis value)
  on_event (button_pressed button) = on_button button
  on_event other_event = done tt

  -- Events of other gamepads are ignored.
  of_gamepad : Bool → EventType F → Step
  of_gamepad true event x = on_event event x
  of_gamepad false event x = (ok tt, x)

  -- The events that wait, with the gamepad they come from.
  pub on_events : ℕ → List (ℕ × EventType F) → Step
  on_events gamepad_id [] = done tt
  on_events gamepad_id ((id, event) ∷ events) =
      of_gamepad (id == gamepad_id) event >> on_events gamepad_id events

  send_if : Bool → Action W E (Unit {0}) → Step
  send_if true m x = on_world m x
  send_if false m x = (ok tt, x)

  send_pen : TeleopState → Step
  send_pen s = send_if s.pen_updated (sim.set_pen (as_request s.pen))

  send_velocity : TeleopState → Step
  send_velocity s =
      send_if (s.velocity_updated || (not (is_zero s.ly) || not (is_zero s.rx)))
        (sim.cmd_vel (record { linear_x = scaled s.ly; angular_z = scaled s.rx }))

  -- A round of the interval. An error ends the program.
  pub tick : ℕ → List (ℕ × EventType F) → Step
  tick gamepad_id events = do
    modify (λ s. record s { pen_updated = false; velocity_updated = false })
    on_events gamepad_id events
    s ← get_state
    send_pen s
    send_velocity s

  abbrev pub new_state : TeleopState
  new_state = record {
    pen = default_pen;
    ly = zero_value;
    rx = zero_value;
    pen_updated = false;
    velocity_updated = false;
  }

  -- What comes before the loop.
  set_up : Step
  set_up = do
    on_world (set_background (69, 86, 255))
    on_world sim.reset_sim
    s ← get_state
    on_world (sim.set_pen (as_request s.pen))

  pub main_loop : ℕ → List (Round F) → Step
  main_loop gamepad_id [] = done tt
  main_loop gamepad_id (ended ∷ rounds) = done tt
  main_loop gamepad_id (ticked events ∷ rounds) =
      tick gamepad_id events >> main_loop gamepad_id rounds

  -- The program up to the shutdown of its node. An error ends it before that.
  pub steer : ℕ → List (Round F) → Step
  steer gamepad_id rounds = set_up >> main_loop gamepad_id rounds
