-- ===== src/Node/Subscriber/Linked.antt =====
-- A topic's connected publishers are those whose tasks run: the invariant of the subscriber actor,
-- rosrust-async/src/node/actors/subscriber.rs, with the tasks of tcpros/subscription.rs.
use rosrust_async.Base.{
  ◌+◌, ◌-◌, ℕ, ◌≡◌, refl, ◌∙◌, ◌⊎◌, inl, inr, Bool, true, false, Bool-cases, none, some, List, [],
  ◌∷◌, Str, str_eq, str_eq_iff, str_eq_refl, if◌then◌else◌, arith,
}
use rosrust_async.Base.Dict.{
  lookup, insert, remove, contains, add, contains-add, contains-discard, lookup-insert,
  lookup-remove,
}
use rosrust_async.Tcpros.Subscription.{SubscriberTask, TaskEvent, run_task, on_exit}
use rosrust_async.Tcpros.Subscription.Delivery.{subscriber_task-publisher_addrs}
use rosrust_async.Node.Subscriber.{Feed, SubscriberActorState}
use rosrust_async.Node.Subscriber.Messages.{without_task, end_task}

-- How many tasks run for an address.
abbrev pub running : Str → List SubscriberTask → ℕ
running addr [] = 0
running addr (t ∷ tasks) = (if str_eq t.publisher_addr addr then 1 else 0) + running addr tasks

-- Each publisher that counts as connected has one task, and no other has any.
abbrev pub Served : Feed → Type 0
Served feed =
    (addr : Str)
    → running addr feed.tasks ≡ (if contains addr feed.subscription.publisher_addrs then 1 else 0)

abbrev pub Linked : SubscriberActorState → Type 0
Linked s =
    (topic_name : Str) (guard : ℕ) (feed : Feed)
    → lookup topic_name s.subscriptions ≡ some (guard, feed)
    → Served feed

-- What adding some publishers may do to a subscription.
abbrev pub Grows : List Str → Feed → Feed → Type 0
Grows offered feed feed' =
    (feed'.subscription.topic ≡ feed.subscription.topic)
    × ((addr : Str)
        → (contains addr feed'.subscription.publisher_addrs
            ≡ contains addr feed.subscription.publisher_addrs)
          ⊎ ((contains addr offered ≡ true)
              × (contains addr feed'.subscription.publisher_addrs ≡ true)))
    × (Served feed → Served feed')

running-without_task :
    (k j : Str) (tasks : List SubscriberTask)
    → running j (without_task k tasks)
      ≡ (if str_eq k j then running j tasks - 1 else running j tasks)
unfolding without_task
running-without_task k j [] = ground arith
running-without_task k j (t ∷ tasks) = ground (
  arith,
  str_eq_iff k j,
  str_eq_iff t.publisher_addr k,
  str_eq_iff t.publisher_addr j,
  running-without_task k j tasks,
)

pub end_task-Served :
    (events : List TaskEvent) (t : SubscriberTask) (feed : Feed)
    → Served feed
    → Served (end_task events t feed)
unfolding end_task run_task on_exit
end_task-Served events t feed h addr =
    let kept =
      subscriber_task-publisher_addrs events t.publisher_header t.incoming feed.subscription in
    rw
      (
        kept.0,
        contains-discard t.publisher_addr addr feed.subscription.publisher_addrs,
        running-without_task t.publisher_addr addr feed.tasks,
      )
      (ground (arith, h addr))

contains_head : (addr : Str) (rest : List Str) → contains addr (addr ∷ rest) ≡ true
unfolding contains
contains_head addr rest = ground (arith, str_eq_refl addr)

contains_tail :
    (a addr : Str) (rest : List Str) → contains a rest ≡ true → contains a (addr ∷ rest) ≡ true
unfolding contains
contains_tail a addr rest h = ground arith

pub Grows-refl : (offered : List Str) (feed : Feed) → Grows offered feed feed
Grows-refl offered feed = (refl, λ addr. inl refl, λ h. h)

pub Grows-trans :
    (offered : List Str) (a b c : Feed) → Grows offered a b → Grows offered b c → Grows offered a c
Grows-trans offered a b c (t, g, s) (t', g', s') =
    (t' ∙ t, λ addr. both addr (g addr) (g' addr), λ h. s' (s h))
  where
    both :
        (addr : Str)
        → (contains addr b.subscription.publisher_addrs
            ≡ contains addr a.subscription.publisher_addrs)
          ⊎ ((contains addr offered ≡ true) × (contains addr b.subscription.publisher_addrs ≡ true))
        → (contains addr c.subscription.publisher_addrs
            ≡ contains addr b.subscription.publisher_addrs)
          ⊎ ((contains addr offered ≡ true) × (contains addr c.subscription.publisher_addrs ≡ true))
        → (contains addr c.subscription.publisher_addrs
            ≡ contains addr a.subscription.publisher_addrs)
          ⊎ ((contains addr offered ≡ true) × (contains addr c.subscription.publisher_addrs ≡ true))
    both addr (inl e) (inl e') = inl (e' ∙ e)
    both addr (inr (o, e)) (inl e') = inr (o, e' ∙ e)
    both addr p (inr q) = inr q

pub Grows-more :
    (a : Str) (offered : List Str) (f g : Feed) → Grows offered f g → Grows (a ∷ offered) f g
Grows-more a offered f g (t, h, s) = (t, λ addr. more addr (h addr), s)
  where
    more :
        (addr : Str)
        → (contains addr g.subscription.publisher_addrs
            ≡ contains addr f.subscription.publisher_addrs)
          ⊎ ((contains addr offered ≡ true) × (contains addr g.subscription.publisher_addrs ≡ true))
        → (contains addr g.subscription.publisher_addrs
            ≡ contains addr f.subscription.publisher_addrs)
          ⊎ ((contains addr (a ∷ offered) ≡ true)
              × (contains addr g.subscription.publisher_addrs ≡ true))
    more addr (inl e) = inl e
    more addr (inr (o, e)) = inr (contains_tail addr a offered o, e)

-- With a task for the publisher that was not there.
pub entry-Grows :
    (a : Str) (rest : List Str) (t : SubscriberTask) (feed : Feed)
    → t.publisher_addr ≡ a
    → contains a feed.subscription.publisher_addrs ≡ false
    → Grows (a ∷ rest) feed (record {
      subscription = record feed.subscription {
        publisher_addrs = add a feed.subscription.publisher_addrs;
      };
      tasks = t ∷ feed.tasks;
    })
entry-Grows a rest t feed e new = (
  refl,
  at,
  λ h addr.
      rw (contains-add a addr feed.subscription.publisher_addrs, e)
        (ground (arith, h addr, new, str_eq_iff a addr)),
)
  where
    at :
        (addr : Str)
        → (contains addr (add a feed.subscription.publisher_addrs)
            ≡ contains addr feed.subscription.publisher_addrs)
          ⊎ ((contains addr (a ∷ rest) ≡ true)
              × (contains addr (add a feed.subscription.publisher_addrs) ≡ true))
    at addr = elim (Bool-cases (str_eq a addr)) [
      | inl same ↦ inr (
        unfold contains in rw (same) refl,
        rw (contains-add a addr feed.subscription.publisher_addrs, same) refl,
      )
      | inr other ↦ inl (rw (contains-add a addr feed.subscription.publisher_addrs, other) refl)
    ]

pub insert-Linked :
    (topic_name : Str) (guard : ℕ) (feed : Feed) (s : SubscriberActorState)
    → Linked s
    → Served feed
    → Linked (record s { subscriptions = insert topic_name (guard, feed) s.subscriptions })
insert-Linked topic_name guard feed s h served name g f e = at (str_eq topic_name name) refl
  where
    at : (b : Bool) → str_eq topic_name name ≡ b → Served f
    at true same =
        let found : some (guard, feed) ≡ some (g, f) =
          rw (lookup-insert topic_name name (guard, feed) s.subscriptions, same) at e in
        λ addr. ground (arith, found, served addr)
    at false other =
        h name g f (rw (lookup-insert topic_name name (guard, feed) s.subscriptions, other) at e)

pub remove-Linked :
    (topic_name : Str) (s : SubscriberActorState)
    → Linked s
    → Linked (record s { subscriptions = remove topic_name s.subscriptions })
remove-Linked topic_name s h name g f e = at (str_eq topic_name name) refl
  where
    at : (b : Bool) → str_eq topic_name name ≡ b → Served f
    at true same =
        let found : none ≡ some (g, f) =
          rw (lookup-remove topic_name name s.subscriptions, same) at e in
        λ addr. ground (arith, found)
    at false other = h name g f (rw (lookup-remove topic_name name s.subscriptions, other) at e)
