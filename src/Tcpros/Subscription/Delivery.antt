-- ===== src/Tcpros/Subscription/Delivery.antt =====
-- What a subscription delivers and keeps: rosrust-async/src/tcpros/subscription.rs.
use rosrust_async.Base.{
  ◌≡◌, refl, true, false, if◌then◌else◌, none, some, List, [], ◌∷◌, ◌++◌, Str, str_eq, str_eq_refl,
  All, Result, ok, err, arith, append_assoc, append-nil, ◌⊎◌, inl, inr, Result-cases,
}
use rosrust_async.Base.Dict.{
  lookup, insert, contains, lookup-insert, lookup-remove, contains-discard, contains-add, add,
}
use rosrust_async.Tcpros.Bytes.{
  IoError, unexpected_eof, read_tcpros_frame, frame, read_tcpros_frame-frame, read_u32,
}
use rosrust_async.Tcpros.Header.Defs.{PublisherHeader}
use rosrust_async.Tcpros.Header.Visit.{Visitor}
use rosrust_async.Tcpros.Net.{Connection, Fits, calls, frames}
use rosrust_async.Tcpros.Subscription.{
  Subscription, SubscriberTask, TaskEvent, data_ready, latch, send, subscriber_task, on_exit,
  run_task, add_publisher, enroll, SubscriptionError, cancelled, handshake,
}

-- A round of the task for each message.
abbrev pub rounds : List Str → List TaskEvent
rounds [] = []
rounds (msg ∷ rest) = data_ready ∷ rounds rest

-- The latched messages once a publisher has sent some messages.
abbrev pub latched_after : PublisherHeader → List Str → List (Str × Str) → List (Str × Str)
latched_after h [] m = m
latched_after h (msg ∷ rest) m =
    latched_after h rest (if h.latching then insert h.caller_id (frame msg) m else m)

-- As long as somebody listens, the framed messages of a publisher, each within 32 bits, are all
-- sent on, whole and in order, after what was sent before; of a publisher that latches each
-- takes the place of the one before among the latched messages; nothing else changes.
pub subscriber_task-calls :
    (msgs : List Str) (h : PublisherHeader) (rest : Str) (s : Subscription)
    → All Fits msgs
    → s.listened ≡ true
    → subscriber_task (rounds msgs) h (calls msgs ++ rest) s ≡ (
      ok tt,
      record s {
        data_sent = s.data_sent ++ frames msgs;
        latched_msgs = latched_after h msgs s.latched_msgs;
      },
    )
unfolding subscriber_task latch send
subscriber_task-calls [] h rest s fits on = rw (append-nil s.data_sent) refl
subscriber_task-calls (msg ∷ msgs) h rest s (fit, fits) on =
    let read = read_tcpros_frame-frame msg (calls msgs ++ rest) fit in
    ground (
      arith,
      read,
      append_assoc (frame msg) (calls msgs) rest,
      append_assoc s.data_sent (frame msg ∷ []) (frames msgs),
      subscriber_task-calls msgs h rest (latch h (frame msg) (send (frame msg) s)) fits,
    )

read_tcpros_frame-nil : read_tcpros_frame [] ≡ err unexpected_eof
unfolding read_tcpros_frame read_u32
read_tcpros_frame-nil = refl

-- A publisher that latches, whose address is not its caller id, sends one message that fits 32
-- bits and closes the connection while somebody listens. After its task its address is given up,
-- but its message is still among the latched ones.
pub run_task_latched :
    (msg : Str) (t : SubscriberTask) (s : Subscription)
    → Fits msg
    → s.listened ≡ true
    → t.incoming ≡ frame msg
    → t.publisher_header.latching ≡ true
    → str_eq t.publisher_addr t.publisher_header.caller_id ≡ false
    → let s' = run_task (data_ready ∷ data_ready ∷ []) t s in
      (contains t.publisher_addr s'.publisher_addrs ≡ false)
      × (lookup t.publisher_header.caller_id s'.latched_msgs ≡ some (frame msg))
unfolding run_task subscriber_task on_exit latch send
run_task_latched msg t s fit on whole latching differ =
    let first : read_tcpros_frame t.incoming ≡ ok (frame msg, []) =
      rw (whole) (rw (append-nil (frame msg)) at (read_tcpros_frame-frame msg [] fit)) in
    let latched = insert t.publisher_header.caller_id (frame msg) s.latched_msgs in
    ground (
      arith,
      first,
      read_tcpros_frame-nil,
      contains-discard t.publisher_addr t.publisher_addr s.publisher_addrs,
      str_eq_refl t.publisher_addr,
      str_eq_refl t.publisher_header.caller_id,
      lookup-remove t.publisher_addr t.publisher_header.caller_id latched,
      lookup-insert t.publisher_header.caller_id t.publisher_header.caller_id (frame msg)
          s.latched_msgs,
    )

-- Once adding a publisher has spawned a task, adding the same address again succeeds with no
-- task and changes nothing, whatever a connection would give.
pub add_publisher-add_publisher :
    (visitor : Visitor PublisherHeader) (addr : Str) (peer again : Result IoError Connection)
    (s : Subscription) (t : SubscriberTask)
    → (add_publisher visitor addr peer s).0 ≡ ok (some t)
    → add_publisher visitor addr again (add_publisher visitor addr peer s).1
      ≡ (ok none, (add_publisher visitor addr peer s).1)
unfolding add_publisher enroll
add_publisher-add_publisher visitor addr peer again s t e =
    ground (arith, contains-add addr addr s.publisher_addrs, str_eq_refl addr)

-- A publisher that is not there yet is refused, or gets a task and its address is kept.
pub add_publisher-cases :
    (visitor : Visitor PublisherHeader) (addr : Str) (peer : Result IoError Connection)
    (s : Subscription)
    → contains addr s.publisher_addrs ≡ false
    → ((e : SubscriptionError) × (add_publisher visitor addr peer s ≡ (err e, s)))
      ⊎ ((t : SubscriberTask) × (t.publisher_addr ≡ addr)
          × (add_publisher visitor addr peer s
              ≡ (ok (some t), record s { publisher_addrs = add addr s.publisher_addrs })))
unfolding add_publisher enroll
add_publisher-cases visitor addr peer s new = elim (Result-cases (handshake visitor s peer)) [
  | inl ((h, rest), e) ↦ inr (
    record { publisher_addr = addr; publisher_header = h; incoming = rest },
    refl,
    rw (new, e) refl,
  )
  | inr (error, e) ↦ inl (error, rw (new, e) refl)
]

-- A task touches neither the topic nor the publishers.
pub subscriber_task-publisher_addrs :
    (events : List TaskEvent) (h : PublisherHeader) (incoming : Str) (s : Subscription)
    → ((subscriber_task events h incoming s).1.publisher_addrs ≡ s.publisher_addrs)
      × ((subscriber_task events h incoming s).1.topic ≡ s.topic)
unfolding subscriber_task latch send
subscriber_task-publisher_addrs [] h incoming s = (refl, refl)
subscriber_task-publisher_addrs (cancelled ∷ events) h incoming s = (refl, refl)
subscriber_task-publisher_addrs (data_ready ∷ events) h incoming s =
    elim (Result-cases (read_tcpros_frame incoming)) [
      | inl ((data_, rest), e) ↦
          ground
            (arith, e, subscriber_task-publisher_addrs events h rest (latch h data_ (send data_ s)))
      | inr (error, e) ↦ rw (e, subscriber_task) (refl, refl)
    ]
