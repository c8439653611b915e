-- ===== src/Node/Publisher/Linked.antt =====
-- The invariant of the publisher actor: an entry is filed under the name of its publication's topic,
-- which is the name that its guard sends when the last handle goes.
use rosrust_async.Base.{
  Bool, ℕ, ◌≡◌, refl, inl, inr, true, false, Option, none, some, List, Str, str_eq_iff, ap,
  if◌then◌else◌, Result, ok, err, arith, length, Option-cases,
}
use rosrust_async.Base.Action.{next, beside, convert, map_error, on_world, ◌>>=◌}
use rosrust_async.Base.Dict.{lookup, lookup-remove, lookup-insert}
use rosrust_async.Tcpros.Spec.{Topic}
use rosrust_async.Xmlrpc.Dxr.{Dxr}
use rosrust_async.Xmlrpc.Master.{World, RosMasterClient, MasterClientError}
use rosrust_async.Xmlrpc.Master
use rosrust_async.Node.Guards.{
  new_guard, guard_name, guard_name-retain, guard_name-disarm_alive, guard_name-new_guard,
  guard_name-release, guard_name-length, retain, release, is_alive,
}
use rosrust_async.Node.Publisher.{
  Host, Publication, PublisherActorState, Registration, master_client, publication,
  cleanup_publication, register_at, register_publisher, unregister_publisher, share, enter, create,
  replace, new_publication,
}
use rosrust_async.Node.Publisher.Registry.{new_publication-topic}
use rosrust_async.Node.Publisher.Messages.{
  PublisherActorMsg, get_publications, get_publisher_address, get_connected_subscriber_ids,
  register, unregister, drop_publisher, handle,
}
use rosrust_async.Tcpros.Publication.{PublicationError}

abbrev pub Linked : PublisherActorState → Type 0
Linked s =
    (key : Str) (guard : ℕ) (p : Publication)
    → lookup key s.publications ≡ some (guard, p)
    → (p.topic.name ≡ key) × (guard_name guard s.guards ≡ some key)

module _ {dxr : Dxr} (world : World dxr) (master : RosMasterClient) (host : Host world.W) where
  open world use {W}

  abbrev State : Type 0
  State = PublisherActorState

  unregister-Linked :
      (topic : Str) (x : State × W)
      → Linked x.0
      → Linked (unregister_publisher world master host topic x).1.0
  unfolding unregister_publisher cleanup_publication
  unregister-Linked topic x l key guard p e = elim (Option-cases (lookup topic x.0.publications)) [
    | inl absent ↦ ground (arith, absent, l key guard p)
    | inr ((g, p'), found) ↦ ground (
      arith,
      found,
      l key guard p,
      lookup-remove topic key x.0.publications,
      guard_name-disarm_alive g guard x.0.guards,
    )
  ]

  enter-Linked :
      (r : Registration) (p : Publication) (s : State) (w : W)
      → p.topic ≡ r.topic
      → Linked s
      → Linked (enter world master host r p (s, w)).1.0
  unfolding enter
  enter-Linked r p s w same l key guard p' e =
      let place : (new_guard r.topic.name s.guards).0 ≡ length s.guards =
        unfold new_guard in refl in
      ground (
        arith,
        place,
        ap (λ (t : Topic). t.name) same,
        l key guard p',
        lookup-insert r.topic.name key ((new_guard r.topic.name s.guards).0, p) s.publications,
        str_eq_iff r.topic.name key,
        guard_name-new_guard r.topic.name guard s.guards,
        guard_name-length s.guards,
      )

  create-Linked :
      (r : Registration) (x : State × W) → Linked x.0 → Linked (create world master host r x).1.0
  unfolding create
  create-Linked r (s, w) l =
      made (new_publication host r w) (new_publication-topic world master host r w)
    where
      registered :
          (p : Publication) (q : Result (MasterClientError dxr) (List Str) × W)
          → p.topic ≡ r.topic
          → Linked
              (next (beside s (convert master_client q)) (λ _. enter world master host r p)).1.0
      registered p (ok names, w') e = enter-Linked r p s w' e l
      registered p (err error, w') e = l

      made :
          (q : Result PublicationError Publication × W)
          → ((p : Publication) → q.0 ≡ ok p → p.topic ≡ r.topic)
          → Linked
              (next (beside s (convert publication q)) λ p. do
                _ ← on_world (
                    map_error master_client
                      (Master.register_publisher world master r.topic.name r.topic.spec.msg_type))
                enter world master host r p).1.0
      made (ok p, w') h =
          registered p
            (Master.register_publisher world master r.topic.name r.topic.spec.msg_type w')
            (h p refl)
      made (err error, w') h = l

  replace-Linked :
      (r : Registration) (guard : ℕ) (p : Publication) (s : State) (w : W)
      → Linked s
      → Linked (replace world master host r guard p (s, w)).1.0
  unfolding replace cleanup_publication
  replace-Linked r guard p s w l = create-Linked r _ λ key g p' e. ground (
    arith,
    l key g p',
    lookup-remove r.topic.name key s.publications,
    guard_name-disarm_alive guard g s.guards,
  )

  share-Linked :
      (r : Registration) (guard : ℕ) (p : Publication) (s : State) (w : W)
      → Linked s
      → Linked (share world master host r guard p (s, w)).1.0
  unfolding share
  share-Linked r guard p s w l key g p' e =
      ground (arith, l key g p', guard_name-retain guard g s.guards)

  register-Linked :
      (r : Registration) (s : State) (w : W)
      → Linked s
      → Linked (register_publisher world master host r (s, w)).1.0
  unfolding register_publisher
  register-Linked r s w l = found (lookup r.topic.name s.publications)
    where
      joined :
          (guard : ℕ) (p : Publication) (b : Bool)
          → Linked
              ((if b
                  then share world master host r guard p
                  else replace world master host r guard p)
                (s, w)).1.0
      joined guard p true = share-Linked r guard p s w l
      joined guard p false = replace-Linked r guard p s w l

      found :
          (o : Option (ℕ × Publication))
          → Linked (register_at world master host r s.guards o (s, w)).1.0
      found none = create-Linked r (s, w) l
      found (some (guard, p)) = joined guard p (is_alive guard s.guards)

  -- Every message leaves each entry filed under its topic's name with a guard of that name.
  pub handle-Linked :
      (heard : Bool) (msg : PublisherActorMsg) (s : State) (w : W)
      → Linked s
      → Linked (handle world master host heard msg (s, w)).1.0
  unfolding handle
  handle-Linked heard get_publications s w l = l
  handle-Linked heard (get_publisher_address topic_name) s w l = l
  handle-Linked heard (get_connected_subscriber_ids topic_name) s w l = l
  handle-Linked heard (register r) s w l = register-Linked r s w l
  handle-Linked heard (unregister topic_name) s w l = unregister-Linked topic_name (s, w) l
  handle-Linked heard (drop_publisher topic_name) s w l = unregister-Linked topic_name (s, w) l

  -- What happens to the actor and the handles that it gave out, one event at a time.
  pub data Step : State × W → State × W → Type 0 where
    handled :
        (heard : Bool) (msg : PublisherActorMsg) (x : State × W)
        → Step x (handle world master host heard msg x).1
    cloned :
        (guard : ℕ) (s : State) (w : W)
        → Step (s, w) (record s { guards = retain guard s.guards }, w)
    dropped :
        (guard : ℕ) (s : State) (w : W)
        → Step (s, w) (record s { guards = (release guard s.guards).1 }, w)
    elsewhere : (s : State) (w w' : W) → Step (s, w) (s, w')

  pub data Reach (x : State × W) : State × W → Type 0 where
    here : Reach x x
    after : {y z : State × W} → Reach x y → Step y z → Reach x z

  Step-Linked : {x y : State × W} → Step x y → Linked x.0 → Linked y.0
  Step-Linked (handled heard msg (s, w)) l = handle-Linked heard msg s w l
  Step-Linked (cloned guard s w) l =
      λ key g p e. ground (arith, l key g p, guard_name-retain guard g s.guards)
  Step-Linked (dropped guard s w) l =
      λ key g p e. ground (arith, l key g p, guard_name-release guard g s.guards)
  Step-Linked (elsewhere s w w') l = l

  -- From a state in which each entry is filed under its topic's name with a guard of that name,
  -- each state that the actor reaches by messages, with handles cloned and dropped in between, is
  -- again such a state.
  pub Reach-Linked : {x y : State × W} → Linked x.0 → Reach x y → Linked y.0
  Reach-Linked l here = l
  Reach-Linked l (after reach step) = Step-Linked step (Reach-Linked l reach)
