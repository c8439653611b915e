-- ===== src/Tcpros/Publication/Delivery.antt =====
-- What a publisher's tasks pass on: rosrust-async/src/tcpros/publication.rs, and to the other end of the
-- connection, tcpros/subscription.rs.
use rosrust_async.Base.{
  ◌+◌, ◌≤◌, ◌≡◌, ◌∙◌, refl, Bool, true, Option, none, some, List, [], ◌∷◌, ◌++◌, append_assoc,
  append-nil, length, length-append, get_elem?-append_next, Str, All, ok, arith,
}
use rosrust_async.Tcpros.Bytes.{frame}
use rosrust_async.Tcpros.Net.{
  Connection, connection, write_all, Broadcast, Fits, calls, frames, frames-length,
}
use rosrust_async.Tcpros.Header.Defs.{PublisherHeader, SubscriberHeader}
use rosrust_async.Tcpros.Header.Visit.{Visitor}
use rosrust_async.Tcpros.Subscription.{Subscription, subscriber_task}
use rosrust_async.Tcpros.Subscription.Delivery.{rounds, latched_after, subscriber_task-calls}
use rosrust_async.Tcpros.Publication.{
  PublisherEvent, data_ready, PublisherTask, Listener, ListenerEvent, message, accepted,
  setup_connection, send_loop, write_latched, publisher_task, listener_task, spawn,
}

-- A round of the task for each message of a channel.
abbrev pub sends : List Str → List Str → List PublisherEvent
sends sent [] = []
sends sent (msg ∷ rest) = data_ready sent ∷ sends sent rest

abbrev pub texts : Option Str → List Str
texts none = []
texts (some msg) = msg ∷ []

abbrev pub framed : Option Str → Option Str
framed none = none
framed (some msg) = some (frame msg)

module _ (channel : Broadcast) where
  send_loop-sends :
      (msgs old : List Str) (incoming sent : Str)
      → length msgs ≤ channel.capacity
      → send_loop channel (sends (old ++ frames msgs) msgs) (length old) (connection incoming sent)
        ≡ ok (connection incoming (sent ++ calls msgs))
  unfolding send_loop write_all
  send_loop-sends [] old incoming sent few = rw (append-nil sent) refl
  send_loop-sends (msg ∷ rest) old incoming sent few =
      let next =
        channel.recv_next (length old) (old ++ frames (msg ∷ rest)) (frame msg)
          (get_elem?-append_next old (frame msg) (frames rest))
          (rw (length-append old (frames (msg ∷ rest)), frames-length rest) (omega arith)) in
      let more =
        send_loop-sends rest (old ++ (frame msg ∷ [])) incoming (sent ++ frame msg) (omega arith) in
      rw
        (
          next,
          send_loop,
          rw
              (
                length-append old (frame msg ∷ []),
                append_assoc old (frame msg ∷ []) (frames rest),
                append_assoc sent (frame msg) (calls rest),
              )
              at more,
        )
        refl

  publisher_task-writes :
      (latched : Option Str) (msgs old : List Str) (subscriber_id incoming sent : Str)
      → length msgs ≤ channel.capacity
      → publisher_task channel (sends (old ++ frames msgs) msgs) (record {
        subscriber_id = subscriber_id;
        latched_message = framed latched;
        data_rx = length old;
        subscriber_stream = connection incoming sent;
      })
        ≡ ok (connection incoming (sent ++ calls (texts latched ++ msgs)))
  unfolding publisher_task write_latched write_all
  publisher_task-writes none msgs old subscriber_id incoming sent few =
      send_loop-sends msgs old incoming sent few
  publisher_task-writes (some msg) msgs old subscriber_id incoming sent few =
      rw (append_assoc sent (frame msg) (calls msgs)) at
        (send_loop-sends msgs old incoming (sent ++ frame msg) few)

  pub publisher_task-sends :
      (latched : Option Str) (msgs old : List Str) (subscriber_id : Str)
      → length msgs ≤ channel.capacity
      → publisher_task channel (sends (old ++ frames msgs) msgs) (record {
        subscriber_id = subscriber_id;
        latched_message = framed latched;
        data_rx = length old;
        subscriber_stream = connection [] [];
      })
        ≡ ok (connection [] (calls (texts latched ++ msgs)))
  publisher_task-sends latched msgs old subscriber_id few =
      publisher_task-writes latched msgs old subscriber_id [] [] few

  -- From the publisher's channel to the subscriber's: messages within 32 bits each, no more than the
  -- channel holds, are sent after a task has been spawned for a subscriber. The task writes the latched
  -- message of its start, if there is one, and then those messages, and over what it has written the
  -- subscriber's task, while somebody listens, sends the same on to the handles, whole, in order and
  -- nothing else; of a publisher that latches the last one is kept.
  pub publisher_task-subscriber_task :
      (latched : Option Str) (msgs old : List Str) (subscriber_id : Str) (h : PublisherHeader)
      (s : Subscription)
      → length msgs ≤ channel.capacity
      → All Fits (texts latched ++ msgs)
      → s.listened ≡ true
      → (c : Connection) × (publisher_task channel (sends (old ++ frames msgs) msgs) (record {
        subscriber_id = subscriber_id;
        latched_message = framed latched;
        data_rx = length old;
        subscriber_stream = connection [] [];
      })
          ≡ ok c)
        × (subscriber_task (rounds (texts latched ++ msgs)) h c.sent s ≡ (
          ok tt,
          record s {
            data_sent = s.data_sent ++ frames (texts latched ++ msgs);
            latched_msgs = latched_after h (texts latched ++ msgs) s.latched_msgs;
          },
        ))
  publisher_task-subscriber_task latched msgs old subscriber_id h s few fits on =
      let whole = subscriber_task-calls (texts latched ++ msgs) h [] s fits on in
      (
        connection [] (calls (texts latched ++ msgs)),
        publisher_task-sends latched msgs old subscriber_id few,
        rw (append-nil (calls (texts latched ++ msgs))) at whole,
      )

  -- A round in which a latching publisher's listener takes the message that it has not had.
  listener_task-message :
      (visitor : Visitor SubscriberHeader) (h : PublisherHeader) (header_bytes : Str)
      (tcp_nodelay : Bool) (events : List ListenerEvent) (sent : List Str) (msg : Str)
      (l : Listener)
      → h.latching ≡ true
      → 1 ≤ channel.capacity
      → l.data_rx ≡ length sent
      → listener_task channel visitor h header_bytes tcp_nodelay
          (message (sent ++ (msg ∷ [])) ∷ events)
          l
        ≡ listener_task channel visitor h header_bytes tcp_nodelay events
            (record l { latched_message = some msg; data_rx = length sent + 1 })
  unfolding listener_task
  listener_task-message visitor h header_bytes tcp_nodelay events sent msg l latching some_room
        place =
      let next =
        channel.recv_next (length sent) (sent ++ (msg ∷ [])) msg (get_elem?-append_next sent msg [])
          (rw (length-append sent (msg ∷ [])) (omega arith)) in
      ground (arith, latching, place, next)

  -- A round in which it takes a connection that is set up.
  listener_task-accepted :
      (visitor : Visitor SubscriberHeader) (h : PublisherHeader) (header_bytes : Str)
      (tcp_nodelay : Bool) (events : List ListenerEvent) (sent : List Str) (l : Listener)
      (c c' : Connection) (header : SubscriberHeader)
      → setup_connection visitor h header_bytes tcp_nodelay c ≡ (ok header, c')
      → listener_task channel visitor h header_bytes tcp_nodelay (accepted sent (ok c) ∷ events) l
        ≡ listener_task channel visitor h header_bytes tcp_nodelay events
            (spawn sent l (ok header, c'))
  unfolding listener_task
  listener_task-accepted visitor h header_bytes tcp_nodelay events sent l c c' header set =
      rw (set) refl

  -- A latching publisher has sent the message `m`, which the listener, whose latched message is `last`, has
  -- not taken yet when a subscriber's connection is there that can be set up and takes what is written;
  -- the channel holds at least one message, and the select! may take either first.
  -- In both orders the listener then has `m` as its latched message and one task more, to which the
  -- messages that follow, no more than the channel holds, are sent. If the message is taken first, the
  -- subscriber's task writes, behind what the set-up wrote, `m` and those messages; if the connection is
  -- taken first, it writes the older latched message, if there is one, in place of `m`.
  pub listener_task_missed :
      (visitor : Visitor SubscriberHeader) (h : PublisherHeader) (header_bytes : Str)
      (tcp_nodelay : Bool) (last : Option Str) (subscriber_ids : List Str)
      (spawned : List PublisherTask) (sent msgs : List Str) (m incoming written : Str)
      (c : Connection) (header : SubscriberHeader)
      → h.latching ≡ true
      → 1 ≤ channel.capacity
      → length msgs ≤ channel.capacity
      → setup_connection visitor h header_bytes tcp_nodelay c
        ≡ (ok header, connection incoming written)
      → let now = sent ++ (frame m ∷ []) in
        let l : Listener = record {
          latched_message = framed last;
          data_rx = length sent;
          subscriber_ids = subscriber_ids;
          tasks = spawned;
        } in
        let run = λ (events : List ListenerEvent).
          listener_task channel visitor h header_bytes tcp_nodelay events l in
        let early = run (message now ∷ accepted now (ok c) ∷ []) in
        let late = run (accepted now (ok c) ∷ message now ∷ []) in
        let gets = publisher_task channel (sends (now ++ frames msgs) msgs) in
        (early.latched_message ≡ some (frame m))
        × (late.latched_message ≡ some (frame m))
        × (t : PublisherTask) × (early.tasks ≡ t ∷ spawned)
        × (gets t ≡ ok (connection incoming (written ++ calls (m ∷ msgs))))
        × (t' : PublisherTask) × (late.tasks ≡ t' ∷ spawned)
        × (gets t' ≡ ok (connection incoming (written ++ calls (texts last ++ msgs))))
  listener_task_missed visitor h header_bytes tcp_nodelay last subscriber_ids spawned sent msgs m
        incoming written c header latching some_room few set =
      let now = sent ++ (frame m ∷ []) in
      let l : Listener = record {
        latched_message = framed last;
        data_rx = length sent;
        subscriber_ids = subscriber_ids;
        tasks = spawned;
      } in
      let c' = connection incoming written in
      let taken : Listener = record l {
        latched_message = some (frame m);
        data_rx = length sent + 1;
      } in
      let early =
        listener_task-message visitor h header_bytes tcp_nodelay (accepted now (ok c) ∷ []) sent
          (frame m) l latching some_room refl
        ∙ listener_task-accepted visitor h header_bytes tcp_nodelay [] now taken c c' header set in
      let late =
        listener_task-accepted visitor h header_bytes tcp_nodelay (message now ∷ []) now l c c'
          header set
        ∙ listener_task-message visitor h header_bytes tcp_nodelay [] sent (frame m)
            (spawn now l (ok header, c')) latching some_room (unfold spawn in refl) in
      (
        rw early (unfold listener_task spawn in refl),
        rw late (unfold listener_task spawn in refl),
        record {
          subscriber_id = header.caller_id;
          latched_message = some (frame m);
          data_rx = length now;
          subscriber_stream = connection incoming written;
        },
        rw early (unfold listener_task spawn in refl),
        publisher_task-writes (some m) msgs now header.caller_id incoming written few,
        record {
          subscriber_id = header.caller_id;
          latched_message = framed last;
          data_rx = length now;
          subscriber_stream = connection incoming written;
        },
        rw late (unfold listener_task spawn in refl),
        publisher_task-writes last msgs now header.caller_id incoming written few,
      )
