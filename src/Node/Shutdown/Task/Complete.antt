-- ===== src/Node/Shutdown/Task/Complete.antt =====
-- What has been done when the shutdown of a node is complete: rosrust-async/src/node/mod.rs.
use mathlib.Core.List.{Memᴰ}
use mathlib.Core.List.Memᴰ.{head, tail, not-nil}
use rosrust_async.Base.{
  ◌≡◌, ◌≢◌, refl, sym, ap, subst, inl, inr, Bool, true, false, List, ◌∷◌, arith,
}
use rosrust_async.Tcpros.Net.{Net}
use rosrust_async.Xmlrpc.Dxr.{Dxr}
use rosrust_async.Xmlrpc.Master.{World, RosMasterClient}
use rosrust_async.Node.Publisher.{Host}
use rosrust_async.Node.Subscriber.{Peers}
use rosrust_async.Node.Shutdown.{Actors, Cell, actor_cells, farewell_at}
use rosrust_async.Node.Shutdown.Cells.{IsGone, Same-IsGone, stop_one-farewell_at, cell-cases}
use rosrust_async.Node.Shutdown.Task.{
  ShutdownManager, spawned, waiting, stopping, ended, running, Same, NodeRun, is_shutdown, new_run,
  begin_task, stop_next, end_run, call_shutdown, Step, polled, triggered, serve_failed, stops, ends,
  asked, worked, outside, Steps, stay, further,
}
use rosrust_async.Node.Shutdown.Task.Tokens.{held}
use rosrust_async.Node.Shutdown.Task.Tokens as Tokens
use rosrust_async.Node.Shutdown.Task.Phases.{OnToken, ended_only, all_cells, Same-refl}

module _ {dxr : Dxr} (world : World dxr) (master : RosMasterClient) (host : Host world.W)
    (net : Net world.W) (peers : Peers dxr world.W) (mgr : ShutdownManager) where
  open world use {W}
  open mgr use {M}

  abbrev Run : Type 0
  Run = NodeRun M W dxr

  abbrev PathFrom : Run → Run → Type 0
  PathFrom = Steps world master host net peers mgr

  abbrev begun : Run → Run
  begun = begin_task world master host net peers mgr

  abbrev Stepping : Run → Run → Type 0
  Stepping = Step world master host net peers mgr

  -- The actor was stopped at some point and has nothing registered since.
  Gone : Run → Cell → Run → Type 0
  Gone n₀ cell n =
      IsGone cell n.actors
      × ((u : Run) × (rest : List Cell) × PathFrom n₀ u
          × (u.task ≡ stopping true (cell ∷ rest))
          × PathFrom (stop_next world master host net peers mgr true cell rest u) n)

  -- The actors that are not to be stopped any more are gone.
  Tracked : Run → Run → Type 0
  Tracked n₀ n = OnToken n.task × ((cell : Cell) → ¬ (Memᴰ cell (running n.task)) → Gone n₀ cell n)

  Gone-further :
      (n₀ n n' : Run) (cell : Cell)
      → Same cell n.actors n'.actors
      → Stepping n n'
      → Gone n₀ cell n
      → Gone n₀ cell n'
  unfolding Gone
  Gone-further n₀ n n' cell same step (gone, (u, rest, before, at_cell, after)) =
      (Same-IsGone cell _ _ same gone, (u, rest, before, at_cell, further _ _ after step))

  absent_before :
      (c d : Cell) (rest cells : List Cell)
      → cells ≡ c ∷ rest
      → c ≢ d
      → ¬ (Memᴰ d rest)
      → ¬ (Memᴰ d cells)
  absent_before c d rest cells e differ absent m = within (subst (Memᴰ d) e m)
    where
      within : Memᴰ d (c ∷ rest) → ⊥
      within (head h) = differ (sym h)
      within (tail t) = absent t

  stops-Tracked :
      {n₀ : Run} (n : Run) (token : Bool) (cell : Cell) (rest : List Cell)
      → PathFrom n₀ n
      → n.task ≡ stopping token (cell ∷ rest)
      → token ≡ true
      → Tracked n₀ n
      → Tracked n₀ (stop_next world master host net peers mgr token cell rest n)
  unfolding Tracked Gone OnToken stop_next
  stops-Tracked n false cell rest path e on t = absurd (cc)
  stops-Tracked {n₀} n true cell rest path e on (held_on, gone) = (refl, after)
    where
      after :
          (d : Cell)
          → ¬ (Memᴰ d rest)
          → Gone n₀ d (stop_next world master host net peers mgr true cell rest n)
      after d absent = elim (cell-cases world master host net peers cell d n.actors n.world) [
        | inl same ↦
            let here = (stop_one-farewell_at world master host net peers cell n.actors n.world).1 in
            subst (λ c. Gone n₀ c (stop_next world master host net peers mgr true cell rest n)) same
              (here, (n, rest, path, e, stay))
        | inr (differ, same) ↦
            Gone-further n₀ n _ d same (stops n true cell rest e)
              (gone d (absent_before cell d rest (running n.task) (ap running e) differ absent))
      ]

  begun-Tracked :
      (n₀ n : Run) (token : Bool)
      → n.task ≡ waiting token
      → Tracked n₀ n
      → Tracked n₀ (record n { task = stopping token actor_cells })
  unfolding Tracked OnToken
  begun-Tracked n₀ n token e (on, gone) =
      (subst OnToken e on, λ cell absent. absurd (absent (all_cells cell)))

  -- A step that changes neither the task nor the actors that it has stopped.
  unchanged-Tracked :
      (n₀ n n' : Run)
      → Stepping n n'
      → n'.task ≡ n.task
      → ((cell : Cell) → ¬ (Memᴰ cell (running n.task)) → Same cell n.actors n'.actors)
      → Tracked n₀ n
      → Tracked n₀ n'
  unfolding Tracked
  unchanged-Tracked n₀ n n' step e same (on, gone) = (
    subst OnToken (sym e) on,
    λ cell absent.
        let was =
          λ (m : Memᴰ cell (running n.task)). absent (subst (Memᴰ cell) (sym (ap running e)) m) in
        Gone-further n₀ n n' cell (same cell was) step (gone cell was),
  )

  Step-Tracked : {n₀ n n' : Run} → PathFrom n₀ n → Stepping n n' → Tracked n₀ n → Tracked n₀ n'
  unfolding Tracked OnToken end_run call_shutdown
  Step-Tracked path (polled n e) (on, gone) = absurd (subst OnToken e on)
  Step-Tracked {n₀} path (triggered n token e on) t = begun-Tracked n₀ n token e t
  Step-Tracked {n₀} path (serve_failed n token e) t = begun-Tracked n₀ n token e t
  Step-Tracked path (stops n token cell rest e) (on, gone) =
      stops-Tracked n token cell rest path e (subst OnToken e on) (on, gone)
  Step-Tracked {n₀} path (ends n token e) (on, gone) = (
    tt,
    λ cell absent.
        Gone-further n₀ n _ cell (Same-refl cell n.actors) (ends n token e)
          (gone cell (λ m. not-nil (subst (Memᴰ cell) (ap running e) m))),
  )
  Step-Tracked {n₀} path (asked n reason) t =
      unchanged-Tracked n₀ n _ (asked n reason) refl (λ cell absent. Same-refl cell n.actors) t
  Step-Tracked {n₀} path (worked n a w same) t =
      unchanged-Tracked n₀ n _ (worked n a w same) refl same t
  Step-Tracked {n₀} path (outside n w) t =
      unchanged-Tracked n₀ n _ (outside n w) refl (λ cell absent. Same-refl cell n.actors) t

  Steps-Tracked : {n₀ n : Run} → n₀.task ≡ waiting true → PathFrom n₀ n → Tracked n₀ n
  unfolding Tracked OnToken
  Steps-Tracked {n₀} e stay = (
    subst OnToken (sym e) refl,
    λ cell absent. absurd (absent (subst (Memᴰ cell) (sym (ap running e)) (all_cells cell))),
  )
  Steps-Tracked e (further n n' path step) = Step-Tracked path step (Steps-Tracked e path)

  completed-held :
      (n : Run)
      → Tokens.IsHeld world master host net peers mgr n
      → is_shutdown mgr n ≡ true
      → held n.task ≡ 0
  unfolding is_shutdown
  completed-held n h c = ground (arith, h, c, mgr.completed_lem n.manager)

  -- Let the task of a node have been polled in a state of the node that anything had led to but whose
  -- shutdown was not complete. Whenever the shutdown is complete after that, whatever callers, actors
  -- and the API server did, also between the stops of two actors, the task has ended. Each actor was then
  -- stopped at some point in between, at which the master was told to give up all that the actor had
  -- then, and the actor has had nothing registered since.
  pub is_shutdown-farewell_at :
      (a : Actors dxr) (w : W) (b n : Run) (cell : Cell)
      → PathFrom (new_run world master host net peers mgr a w) b
      → b.task ≡ spawned
      → is_shutdown mgr b ≡ false
      → PathFrom (begin_task world master host net peers mgr b) n
      → is_shutdown mgr n ≡ true
      → (n.task ≡ ended)
        × IsGone cell n.actors
        × ((u : Run) × (rest : List Cell) × PathFrom
              (begin_task world master host net peers mgr b)
              u
            × (u.task ≡ stopping true (cell ∷ rest))
            × ((stop_next world master host net peers mgr true cell rest u).world
                ≡ farewell_at world master host net peers cell u.actors u.world)
            × PathFrom (stop_next world master host net peers mgr true cell rest u) n)
  unfolding Tracked Gone stop_next
  is_shutdown-farewell_at a w b n cell first new off path done =
      let all = further b (begun b) first (polled b new) in
      let kept = Tokens.Steps-IsHeld world master host net peers mgr path (
        Tokens.Steps-IsHeld world master host net peers mgr all
          (Tokens.new_run-IsHeld world master host net peers mgr a w)) in
      let (on, gone) =
        Steps-Tracked (Tokens.begin_task-waiting world master host net peers mgr b off) path in
      let over = ended_only n.task on (completed-held n kept done) in
      let (nothing, (u, rest, before, at_cell, after)) =
        gone cell (λ m. not-nil (subst (Memᴰ cell) (ap running over) m)) in
      (
        over,
        nothing,
        (
          u,
          rest,
          before,
          at_cell,
          (stop_one-farewell_at world master host net peers cell u.actors u.world).0,
          after,
        ),
      )
