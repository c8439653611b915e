-- ===== src/Node/Publisher/Registry.antt =====
-- The registry of publications: what an entry says, and that handles and entries keep in step.
use rosrust_async.Base.{
  ℕ, ◌≡◌, refl, ◌⊎◌, inl, inr, Bool, true, false, Option, none, some, List, Str, str_eq, str_eq_iff,
  str_eq_refl, if◌then◌else◌, Result, ok, err, arith, sym, Result-cases, subst,
}
use rosrust_async.Base.Dict.{lookup, lookup-insert, lookup-remove}
use rosrust_async.Tcpros.Spec.{validate_topic_specs, TopicSpec, Topic, CompatibilityError}
use rosrust_async.Xmlrpc.Dxr.{Dxr}
use rosrust_async.Xmlrpc.Master.{World, RosMasterClient, MasterClientError}
use rosrust_async.Xmlrpc.Master
use rosrust_async.Node.Guards.{new_guard, is_alive, retain, is_alive-new_guard, is_alive-retain}
use rosrust_async.Node.Publisher.{
  Host, Publication, PublisherActorError, PublisherActorState, Publisher, Registration,
  cleanup_publication, share, enter, create, replace, register_publisher, unregister_publisher,
  new_publication, master_client, publication, register_at, incompatible,
}
use rosrust_async.Tcpros.Header.Compat.{topic_agreement}
use rosrust_async.Base.Action.{next, beside, convert, map_error, on_world, ◌>>=◌}
use rosrust_async.Tcpros.Publication.{PublicationError}

module _ {dxr : Dxr} (world : World dxr) (master : RosMasterClient) (host : Host world.W) where
  open world use {W}

  abbrev State : Type 0
  State = PublisherActorState

  -- Unregistering takes the topic's entry out of the registry and leaves the others, whatever the
  -- master answers.
  pub lookup-unregister_publisher :
      (topic key : Str) (s : State) (w : W)
      → lookup key (unregister_publisher world master host topic (s, w)).1.0.publications
        ≡ (if str_eq topic key then none else lookup key s.publications)
  unfolding unregister_publisher cleanup_publication
  lookup-unregister_publisher topic key s w =
      ground (arith, lookup-remove topic key s.publications, str_eq_iff topic key)

  -- What a handle is good for: its entry is in the registry, under the topic's name, with the same
  -- channel, a guard in use, and a compatible topic.
  abbrev pub Backed : Registration → Publisher → State → Type 0
  Backed r h s =
      (p : Publication) × (lookup r.topic.name s.publications ≡ some (h.guard, p))
      × (p.data_tx ≡ h.data_tx)
      × (is_alive h.guard s.guards ≡ true)
      × (validate_topic_specs r.topic.spec p.topic.spec ≡ ok tt)

  abbrev pub Backs :
      Registration → Result (PublisherActorError dxr) Publisher × (State × W) → Type 0
  Backs r (ok h, (s, w)) = Backed r h s
  Backs r (err e, (s, w)) = Unit {0}

  validate_refl : (t : TopicSpec) → validate_topic_specs t t ≡ ok tt
  validate_refl t = (topic_agreement t t).1 (inl refl, inl refl, inl refl)

  pub new_publication-topic :
      (r : Registration) (w : W) (p : Publication)
      → (new_publication host r w).0 ≡ ok p
      → p.topic ≡ r.topic
  unfolding new_publication
  new_publication-topic r w p e = ground arith

  enter-Backs :
      (r : Registration) (p : Publication) (s : State) (w : W)
      → p.topic ≡ r.topic
      → Backs r (enter world master host r p (s, w))
  unfolding enter
  enter-Backs r p s w e = (
    p,
    ground (
      arith,
      lookup-insert r.topic.name r.topic.name ((new_guard r.topic.name s.guards).0, p)
          s.publications,
      str_eq_refl r.topic.name,
    ),
    refl,
    is_alive-new_guard r.topic.name s.guards,
    subst (λ (t : Topic). validate_topic_specs r.topic.spec t.spec ≡ ok tt) (sym e)
        (validate_refl r.topic.spec),
  )

  share-Backs :
      (r : Registration) (guard : ℕ) (p : Publication) (s : State) (w : W)
      → lookup r.topic.name s.publications ≡ some (guard, p)
      → is_alive guard s.guards ≡ true
      → Backs r (share world master host r guard p (s, w))
  unfolding share
  share-Backs r guard p s w e alive =
      elim (Result-cases (validate_topic_specs r.topic.spec p.topic.spec)) [
        | inl (u, fits) ↦ rw (fits, share) (p, e, refl, is_alive-retain guard s.guards alive, fits)
        | inr (error, fails) ↦ rw (fails, share) tt
      ]

  create-Backs : (r : Registration) (x : State × W) → Backs r (create world master host r x)
  unfolding create
  create-Backs r (s, w) = made (new_publication host r w) (new_publication-topic r w)
    where
      registered :
          (p : Publication) (q : Result (MasterClientError dxr) (List Str) × W)
          → p.topic ≡ r.topic
          → Backs r (next (beside s (convert master_client q)) (λ _. enter world master host r p))
      registered p (ok names, w') e = enter-Backs r p s w' e
      registered p (err error, w') e = tt

      made :
          (q : Result PublicationError Publication × W)
          → ((p : Publication) → q.0 ≡ ok p → p.topic ≡ r.topic)
          → Backs r (
              next (beside s (convert publication q)) λ p. do
                _ ← on_world (
                    map_error master_client
                      (Master.register_publisher world master r.topic.name r.topic.spec.msg_type))
                enter world master host r p)
      made (ok p, w') h =
          registered p
            (Master.register_publisher world master r.topic.name r.topic.spec.msg_type w')
            (h p refl)
      made (err error, w') h = tt

  replace-Backs :
      (r : Registration) (guard : ℕ) (p : Publication) (x : State × W)
      → Backs r (replace world master host r guard p x)
  unfolding replace
  replace-Backs r guard p x = create-Backs r _

  -- A registration that succeeds gives a handle for an entry of the registry under the topic's
  -- name, with the handle's channel, a guard that is alive and a compatible topic, whether the
  -- registration joins an entry in use, replaces one whose handles are gone, or is the first of
  -- its name.
  pub register_publisher-Backs :
      (r : Registration) (s : State) (w : W)
      → Backs r (register_publisher world master host r (s, w))
  unfolding register_publisher
  register_publisher-Backs r s w = found (lookup r.topic.name s.publications) refl
    where
      joined :
          (guard : ℕ) (p : Publication) (b : Bool)
          → lookup r.topic.name s.publications ≡ some (guard, p)
          → is_alive guard s.guards ≡ b
          → Backs r (
              (if b then share world master host r guard p else replace world master host r guard p)
                (s, w))
      joined guard p true e alive = share-Backs r guard p s w e alive
      joined guard p false e gone = replace-Backs r guard p (s, w)

      found :
          (o : Option (ℕ × Publication))
          → lookup r.topic.name s.publications ≡ o
          → Backs r (register_at world master host r s.guards o (s, w))
      found none e = create-Backs r (s, w)
      found (some (guard, p)) e = joined guard p (is_alive guard s.guards) e refl

  -- Registering a topic that has an entry with a live guard leaves the world as it is: if the
  -- topics are compatible the handle is for the entry's channel and there is one handle more, else
  -- nothing changes and the disagreement is the error.
  pub register_publisher_in_use :
      (r : Registration) (guard : ℕ) (p : Publication) (s : State) (w : W)
      → lookup r.topic.name s.publications ≡ some (guard, p)
      → is_alive guard s.guards ≡ true
      → ((validate_topic_specs r.topic.spec p.topic.spec ≡ ok tt)
          × (register_publisher world master host r (s, w) ≡ (
            ok (record { data_tx = p.data_tx; guard = guard }),
            (record s { guards = retain guard s.guards }, w),
          )))
        ⊎ ((e : CompatibilityError) × (validate_topic_specs r.topic.spec p.topic.spec ≡ err e)
            × (register_publisher world master host r (s, w) ≡ (err (incompatible e), (s, w))))
  unfolding register_publisher share
  register_publisher_in_use r guard p s w e alive =
      elim (Result-cases (validate_topic_specs r.topic.spec p.topic.spec)) [
        | inl (u, fits) ↦ inl (fits, ground (arith, e, alive, fits))
        | inr (error, fails) ↦ inr (error, fails, ground (arith, e, alive, fails))
      ]
