-- ===== src/Node/Guards/Tests.antt =====
-- A guard with two handles, of which one is cloned before all three go.
use rosrust_async.Base.{◌≡◌, refl, true, not, ◌&&◌, if◌then◌else◌, List, [], ◌∷◌, codes, arith}
use rosrust_async.Node.Guards.{Guard, is_alive, release, retain}
use rosrust_async.Node.Guards.Handles.{
  HandleEvent, cloned, dropped, handle_event, run_handles, run_handles-once,
}

abbrev shared : Guard
shared = record { name = codes "/t"; armed = true; strong = 2 }

abbrev uses : List HandleEvent
uses = dropped ∷ cloned ∷ dropped ∷ dropped ∷ dropped ∷ []

run_handles_sends : (run_handles uses 0 (shared ∷ [])).0 ≡ codes "/t" ∷ []
unfolding run_handles handle_event is_alive release retain
run_handles_sends = refl

run_handles-once_example :
    let x = run_handles uses 0 (shared ∷ []) in
    x.0 ≡ (if true && not (is_alive 0 x.1) then codes "/t" ∷ [] else [])
run_handles-once_example = run_handles-once uses 0 (shared ∷ []) shared refl (omega arith)
