-- ===== src/Node/Typed/Delivery.antt =====
-- Typed messages from a publisher's handle to a subscriber's: rosrust-async/src/node/actors/publisher.rs,
-- tcpros/publication.rs, tcpros/subscription.rs, node/actors/subscriber.rs and node/mod.rs, joined.
use rosrust_async.Base.{
  ℕ, ◌+◌, ◌≤◌, ◌≡◌, refl, true, none, some, List, [], ◌∷◌, ◌++◌, map, append_assoc, append-nil,
  length, length-append, Str, All, Result, ok, arith, get_elem?-append_next,
}
use rosrust_async.Tcpros.Bytes.{frame}
use rosrust_async.Tcpros.Net.{Connection, connection, Fits, Broadcast, frames, frames-length, calls}
use rosrust_async.Tcpros.Header.Defs.{PublisherHeader}
use rosrust_async.Tcpros.Subscription.{Subscription, subscriber_task}
use rosrust_async.Tcpros.Subscription.Delivery.{rounds, subscriber_task-calls}
use rosrust_async.Tcpros.Publication.{publisher_task}
use rosrust_async.Tcpros.Publication.Delivery.{sends, publisher_task-sends}
use rosrust_async.Node.Subscriber.Receive.{recv, recv_raw, take_or, received, decoded}
use rosrust_async.Node.Typed.{
  RosMsg, PublisherError, Sender, send_raw, send_message, CallbackEvent, had, waiting,
  callback_loop, called,
}

-- What is relied on of rosrust's encoding: a message becomes a body with its length in front, and is got
-- back from it.
pub record Framed {T : Type 0} (msg : RosMsg T) : Type 0 where
  pub body : T → Str
  pub encode_body : (t : T) → msg.encode_vec t ≡ ok (frame (body t))
  pub decode_body : (t : T) → Fits (body t) → msg.decode_slice (frame (body t)) ≡ ok t

module _ {T : Type 0} {msg : RosMsg T} (framed : Framed msg) where
  open framed use {body}

  -- Some messages sent one after the other, with what each call returns.
  abbrev pub send_all : List T → Sender → List (Result PublisherError (Unit {0})) × Sender
  send_all [] tx = ([], tx)
  send_all (t ∷ rest) tx =
      let (result, tx') = send_message msg t tx in
      let (results, tx'') = send_all rest tx' in (result ∷ results, tx'')

  abbrev pub bodies : List T → List Str
  bodies = map body

  pub bodies-length : (ts : List T) → length (bodies ts) ≡ length ts
  bodies-length [] = refl
  bodies-length (t ∷ ts) = rw (bodies-length ts) refl

  abbrev pub heard : List Str → Sender
  heard sent = record { sent = sent; listened = true }

  pub send_all-bodies :
      (ts : List T) (old : List Str)
      → send_all ts (heard old) ≡ (map (λ _. ok tt) ts, heard (old ++ frames (bodies ts)))
  unfolding send_message send_raw
  send_all-bodies [] old = rw (append-nil old) refl
  send_all-bodies (t ∷ ts) old =
      rw
        (
          framed.encode_body t,
          send_all-bodies ts (old ++ (frame (body t) ∷ [])),
          append_assoc old (frame (body t) ∷ []) (frames (bodies ts)),
        )
        refl

  -- The channel of a topic has had some messages each time that the task of a callback looks.
  abbrev pub looks : List Str → List T → List CallbackEvent
  looks sent [] = []
  looks sent (t ∷ ts) = had sent ∷ looks sent ts

  recv-body :
      (channel : Broadcast) (t : T) (ts : List T) (old : List Str) (guard : ℕ)
      → length (t ∷ ts) ≤ channel.capacity
      → Fits (body t)
      → recv channel msg.decode_slice
          (record { latched_msgs = []; data_rx = length old; guard = guard })
          (old ++ frames (bodies (t ∷ ts)))
        ≡ some (ok t, record { latched_msgs = []; data_rx = length old + 1; guard = guard })
  unfolding recv recv_raw take_or received decoded
  recv-body channel t ts old guard few fit =
      let next =
        channel.recv_next (length old) (old ++ frames (bodies (t ∷ ts))) (frame (body t))
          (get_elem?-append_next old (frame (body t)) (frames (bodies ts)))
          (rw
            (
              length-append old (frames (bodies (t ∷ ts))),
              frames-length (bodies ts),
              bodies-length ts,
            )
            (omega arith)) in
      rw (recv, recv_raw, take_or, next, received, decoded, framed.decode_body t fit) refl

  pub callback_loop-bodies :
      (channel : Broadcast) (ts : List T) (old : List Str) (guard : ℕ)
      → length ts ≤ channel.capacity
      → All Fits (bodies ts)
      → callback_loop channel msg
          (looks (old ++ frames (bodies ts)) ts)
          (record { latched_msgs = []; data_rx = length old; guard = guard })
        ≡ (ts, waiting)
  unfolding callback_loop called
  callback_loop-bodies channel [] old guard few fits = refl
  callback_loop-bodies channel (t ∷ ts) old guard few (fit, fits) =
      let more =
        callback_loop-bodies channel ts (old ++ (frame (body t) ∷ [])) guard (omega arith) fits in
      rw
        (
          recv-body channel t ts old guard few fit,
          callback_loop,
          rw
              (
                length-append old (frame (body t) ∷ []),
                append_assoc old (frame (body t) ∷ []) (frames (bodies ts)),
              )
              at more,
        )
        refl

  -- From `send` of a typed publisher to the callback of a typed subscriber, where a message is
  -- encoded as a body with its length in front and got back from it: messages whose bodies fit 32
  -- bits, no more of them than either channel holds, are sent while the publisher's channel has a
  -- receiver, after a task has been spawned for the subscriber; on the subscriber's side somebody
  -- listens. Then each call of `send` succeeds, the publisher's task writes without an error, and
  -- over what it has written the subscriber's task lets the callback be called with the very
  -- messages, in order, each once, and wait on.
  pub send_all-callback_loop :
      (pub_channel sub_channel : Broadcast) (ts : List T) (old : List Str) (subscriber_id : Str)
      (h : PublisherHeader) (s : Subscription) (guard : ℕ)
      → length ts ≤ pub_channel.capacity
      → length ts ≤ sub_channel.capacity
      → All Fits (bodies ts)
      → s.listened ≡ true
      → let (results, tx) = send_all ts (heard old) in
        (results ≡ map (λ _. ok tt) ts)
        × (c : Connection) × (publisher_task pub_channel (sends tx.sent (bodies ts)) (record {
          subscriber_id = subscriber_id;
          latched_message = none;
          data_rx = length old;
          subscriber_stream = connection [] [];
        })
            ≡ ok c)
        × (callback_loop sub_channel msg
              (looks (subscriber_task (rounds (bodies ts)) h c.sent s).1.data_sent ts)
              (record { latched_msgs = []; data_rx = length s.data_sent; guard = guard })
            ≡ (ts, waiting))
  send_all-callback_loop pub_channel sub_channel ts old subscriber_id h s guard few few' fits on =
      let written = subscriber_task-calls (bodies ts) h [] s fits on in
      let whole = rw (append-nil (calls (bodies ts))) at written in
      rw (send_all-bodies ts old) (
        refl,
        connection [] (calls (bodies ts)),
        publisher_task-sends pub_channel none (bodies ts) old subscriber_id
            (rw (bodies-length ts) few),
        rw whole (callback_loop-bodies sub_channel ts s.data_sent guard few' fits),
      )
