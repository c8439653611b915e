-- ===== src/Node/Publisher/Lifetime.antt =====
-- The end of a publication: unregistering it, and the message that the last handle sends.
use rosrust_async.Base.{
  ℕ, ◌≡◌, refl, true, none, some, Str, str_eq_refl, Result, ok, err, arith, get_elem?, subst,
}
use rosrust_async.Base.Dict.{lookup}
use rosrust_async.Xmlrpc.Dxr.{Dxr}
use rosrust_async.Xmlrpc.Master.{World, RosMasterClient}
use rosrust_async.Node.Guards.{
  is_alive, disarm_alive, release, is_alive-disarm_alive, release-disarm_alive,
}
use rosrust_async.Node.Publisher.{
  Host, Publication, PublisherActorError, PublisherActorState, Publisher, Registration,
  cleanup_publication, register_publisher, unregister_publisher,
}
use rosrust_async.Node.Publisher.Registry.{
  Backed, Backs, register_publisher-Backs, lookup-unregister_publisher,
}

module _ {dxr : Dxr} (world : World dxr) (master : RosMasterClient) (host : Host world.W) where
  open world use {W}

  abbrev State : Type 0
  State = PublisherActorState

  guards-unregister_publisher :
      (topic : Str) (guard : ℕ) (p : Publication) (s : State) (w : W)
      → lookup topic s.publications ≡ some (guard, p)
      → (unregister_publisher world master host topic (s, w)).1.0.guards
        ≡ disarm_alive guard s.guards
  unfolding unregister_publisher cleanup_publication
  guards-unregister_publisher topic guard p s w e = ground (arith, e)

  -- After unregistering a topic that has an entry, a handle of the entry's guard that goes sends
  -- no message.
  pub release-unregister_publisher :
      (topic : Str) (guard : ℕ) (p : Publication) (s : State) (w : W)
      → lookup topic s.publications ≡ some (guard, p)
      → (release guard (unregister_publisher world master host topic (s, w)).1.0.guards).0 ≡ none
  release-unregister_publisher topic guard p s w e =
      rw (guards-unregister_publisher topic guard p s w e) (release-disarm_alive guard s.guards)

  Backs-ok :
      (r : Registration) (q : Result (PublisherActorError dxr) Publisher × (State × W))
      (h : Publisher)
      → Backs world master host r q
      → q.0 ≡ ok h
      → Backed world master host r h q.1.0
  Backs-ok r (ok h', (s, w)) h b e =
      let same : h' ≡ h = cc in subst (λ g. Backed world master host r g s) same b
  Backs-ok r (err error, (s, w)) h b e = absurd (cc)

  -- The state once a handle of a guard is gone.
  abbrev pub dropped : ℕ → State → State
  dropped guard s = record s { guards = (release guard s.guards).1 }

  -- The last handle of a topic goes and sends the topic's name; before the actor reads that
  -- message, a registration of the topic succeeds. Reading the message, which unregisters the
  -- topic, then takes out the new entry, although the guard of the new handle is still alive.
  pub drop_publisher_race :
      (r : Registration) (guard : ℕ) (p : Publication) (h : Publisher) (s : State) (w : W)
      → lookup r.topic.name s.publications ≡ some (guard, p)
      → get_elem? s.guards guard ≡ some (record { name = r.topic.name; armed = true; strong = 1 })
      → (register_publisher world master host r (dropped guard s, w)).0 ≡ ok h
      → ((release guard s.guards).0 ≡ some r.topic.name)
        × (let x = (register_publisher world master host r (dropped guard s, w)).1 in
            let y = (unregister_publisher world master host r.topic.name x).1.0 in
            (lookup r.topic.name y.publications ≡ none) × (is_alive h.guard y.guards ≡ true))
  drop_publisher_race r guard p h s w entry last registered =
      let q = register_publisher world master host r (dropped guard s, w) in
      let (p', e, tx, alive, fits) =
        Backs-ok r q h (register_publisher-Backs world master host r (dropped guard s) w)
          registered in
      (
        unfold release in ground (arith, last),
        (
          rw
              (
                lookup-unregister_publisher world master host r.topic.name r.topic.name q.1.0 q.1.1,
                str_eq_refl r.topic.name,
              )
              refl,
          rw
              (
                guards-unregister_publisher r.topic.name h.guard p' q.1.0 q.1.1 e,
                is_alive-disarm_alive h.guard h.guard q.1.0.guards,
              )
              alive,
        ),
      )
