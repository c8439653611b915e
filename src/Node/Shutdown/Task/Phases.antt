-- ===== src/Node/Shutdown/Task/Phases.antt =====
-- The task of a node by its phases, and the four actors: rosrust-async/src/node/mod.rs.
use mathlib.Core.List.{Memᴰ}
use mathlib.Core.List.Memᴰ.{head, tail}
use rosrust_async.Base.{◌≡◌, refl, true, false, arith}
use rosrust_async.Xmlrpc.Dxr.{Dxr}
use rosrust_async.Node.Shutdown.{
  Actors, Cell, publisher_cell, subscriber_cell, service_cell, parameter_cell, actor_cells,
}
use rosrust_async.Node.Shutdown.Task.{Task, spawned, waiting, stopping, ended, Same}
use rosrust_async.Node.Shutdown.Task.Tokens.{held}

-- The task has its token, or is at its end.
unfoldable pub OnToken : Task → Type 0
OnToken spawned = ⊥
OnToken ended = Unit
OnToken (waiting token) = token ≡ true
OnToken (stopping token rest) = token ≡ true

pub ended_only : (t : Task) → OnToken t → held t ≡ 0 → t ≡ ended
unfolding OnToken
ended_only spawned on e = absurd on
ended_only ended on e = refl
ended_only (waiting true) on e = absurd (omega (arith, e))
ended_only (waiting false) on e = absurd (cc)
ended_only (stopping true rest) on e = absurd (omega (arith, e))
ended_only (stopping false rest) on e = absurd (cc)

pub all_cells : (cell : Cell) → Memᴰ cell actor_cells
all_cells publisher_cell = head refl
all_cells subscriber_cell = tail (head refl)
all_cells service_cell = tail (tail (head refl))
all_cells parameter_cell = tail (tail (tail (head refl)))

pub Same-refl : {dxr : Dxr} (cell : Cell) (a : Actors dxr) → Same cell a a
Same-refl publisher_cell a = refl
Same-refl subscriber_cell a = refl
Same-refl service_cell a = (refl, refl)
Same-refl parameter_cell a = refl
