-- ===== src/Node/Subscriber/Receive.antt =====
-- A subscriber handle's end of the channel: `Subscriber` of
-- rosrust-async/src/node/actors/subscriber.rs. tokio's broadcast receiver is a parameter.
use rosrust_async.Base.{
  ℕ, zero, suc, Option, none, some, List, [], ◌∷◌, Str, Result, ok, err, map_err,
}
use rosrust_async.Tcpros.Bytes.{IoError}
use rosrust_async.Node.Subscriber.{Subscriber}
use rosrust_async.Tcpros.Net.{Broadcast}

pub data SubscriberError (RecvError : Type 0) : Type 0 where
  decode : IoError → SubscriberError RecvError
  recv_failed : RecvError → SubscriberError RecvError

module _ (channel : Broadcast) where
  open channel use {RecvError}

  abbrev Received : Type 0
  Received = Result (SubscriberError RecvError) Str

  unfoldable pub received :
      Subscriber → Option (Result RecvError Str × ℕ) → Option (Received × Subscriber)
  received h none = none
  received h (some (result, n)) = some (map_err recv_failed result, record h { data_rx = n })

  unfoldable pub take_or : Subscriber → List Str → List Str → Option (Received × Subscriber)
  take_or h (msg ∷ rest) sent = some (ok msg, record h { latched_msgs = rest })
  take_or h [] sent = received h (channel.recv h.data_rx sent)

  -- Over the messages that the channel has had so far.
  unfoldable pub recv_raw :
      Subscriber → List Str → Option (Result (SubscriberError RecvError) Str × Subscriber)
  unfolding take_or received
  recv_raw h sent = take_or h h.latched_msgs sent

  -- `TypedSubscriber::recv`, with the decoder of the message's type.
  unfoldable pub decoded :
      {T : Type 0}
      → (Str → Result IoError T)
      → Result (SubscriberError RecvError) Str
      → Result (SubscriberError RecvError) T
  decoded decode_slice (ok bytes) = map_err decode (decode_slice bytes)
  decoded decode_slice (err e) = err e

  unfoldable pub recv :
      {T : Type 0}
      → (Str → Result IoError T)
      → Subscriber
      → List Str
      → Option (Result (SubscriberError RecvError) T × Subscriber)
  unfolding decoded
  recv decode_slice h sent = elim (recv_raw h sent) [
    | none ↦ none
    | some (bytes, h') ↦ some (decoded decode_slice bytes, h')
  ]

  -- What some reads in a row give, until one has to wait.
  unfoldable pub receive : ℕ → Subscriber → List Str → List (Result (SubscriberError RecvError) Str)
  receive zero h sent = []
  receive (suc n) h sent = elim (recv_raw h sent) [
    | none ↦ []
    | some (result, h') ↦ result ∷ receive n h' sent
  ]
