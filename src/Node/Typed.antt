-- ===== src/Node/Typed.antt =====
-- The typed ends of topics and services: `TypedPublisher` and `Publisher` of
-- rosrust-async/src/node/actors/publisher.rs, `TypedServiceClient` and `ServiceClient` of
-- node/actors/service.rs, and of node/mod.rs the callback of `advertise_service` and the task of
-- `subscribe_callback`. A message's encoding is code of rosrust, a parameter.
pub mod Delivery
pub mod Answers
mod Tests
use rosrust_async.Base.{
  ℕ, Bool, true, false, if◌then◌else◌, Option, none, some, List, [], ◌∷◌, ◌++◌, Str, Result, ok,
  err, map_err, ◌>>=◌,
}
use rosrust_async.Base.Action.{Action, next}
use rosrust_async.Tcpros.Bytes.{IoError}
use rosrust_async.Tcpros.Net.{Broadcast}
use rosrust_async.Node.Subscriber.{Subscriber}
use rosrust_async.Node.Subscriber.Receive.{SubscriberError, recv_failed, recv}

-- `encode_vec` and `decode_slice` of a type of messages.
pub record RosMsg (T : Type 0) : Type 0 where
  pub encode_vec : T → Result IoError Str
  pub decode_slice : Str → Result IoError T

pub data PublisherError : Type 0 where
  encode : IoError → PublisherError
  send : Str → PublisherError

-- A broadcast channel from its sending end: what was sent, and whether any receiver is left.
pub record Sender : Type 0 where
  pub sent : List Str
  pub listened : Bool

unfoldable pub send_raw : Str → Action Sender PublisherError (Unit {0})
send_raw bytes tx =
    if tx.listened
    then (ok tt, record tx { sent = tx.sent ++ (bytes ∷ []) })
    else (err (send bytes), tx)

-- `TypedPublisher::send`
unfoldable pub send_message : {T : Type 0} → RosMsg T → T → Action Sender PublisherError (Unit {0})
send_message msg message tx = next (map_err encode (msg.encode_vec message), tx) send_raw

pub data ServiceClientError (LinkError : Type 0) : Type 0 where
  io : IoError → ServiceClientError LinkError
  rpc_send : Str → ServiceClientError LinkError
  rpc_recv : ServiceClientError LinkError
  client_link : LinkError → ServiceClientError LinkError

-- What becomes of a request in the link's queue: the queue is closed, or the reply port is dropped, or the
-- link's task replies.
pub data Fate (LinkError : Type 0) : Type 0 where
  closed dropped : Fate LinkError
  replied : Result LinkError Str → Fate LinkError

unfoldable pub call_raw :
    {LinkError : Type 0} → (Str → Fate LinkError) → Str → Result (ServiceClientError LinkError) Str
call_raw link data_ = elim (link data_) [
  | closed ↦ err (rpc_send data_)
  | dropped ↦ err rpc_recv
  | replied result ↦ map_err client_link result
]

-- `TypedServiceClient::call`
unfoldable pub call :
    {LinkError Req Resp : Type 0}
    → RosMsg Req
    → RosMsg Resp
    → (Str → Fate LinkError)
    → Req
    → Result (ServiceClientError LinkError) Resp
unfolding call_raw
call req resp link request = do
  data_ ← map_err io (req.encode_vec request)
  reply ← call_raw link data_
  map_err io (resp.decode_slice reply)

-- The callback that `advertise_service` registers. An error is known by its text.
unfoldable pub erased_callback :
    {Req Resp : Type 0}
    → RosMsg Req
    → RosMsg Resp
    → (IoError → Str)
    → (Req → Result Str Resp)
    → Str
    → Result Str Str
erased_callback req resp text callback data_ = do
  request ← map_err text (req.decode_slice data_)
  response ← callback request
  map_err text (resp.encode_vec response)

-- A round of the task of `subscribe_callback`: the token is cancelled, or the channel has had some messages.
pub data CallbackEvent : Type 0 where
  cancelled : CallbackEvent
  had : List Str → CallbackEvent

-- How the task ends, if it does.
pub data Ended (E : Type 0) : Type 0 where
  waiting by_token by_closing : Ended E
  by_error : E → Ended E

module _ {T : Type 0} (channel : Broadcast) (msg : RosMsg T) where
  open channel use {RecvError, is_closed}

  abbrev Loop : Type 0
  Loop = List T × Ended (SubscriberError RecvError)

  -- Only a lag lets the loop go on after an error.
  after_error : SubscriberError RecvError → Loop → Loop
  after_error (recv_failed e) rest = if is_closed e then ([], by_closing) else rest
  after_error (SubscriberError.decode e) rest = ([], by_error (SubscriberError.decode e))

  called : Result (SubscriberError RecvError) T → Loop → Loop
  called (ok message) (messages, ended) = (message ∷ messages, ended)
  called (err e) rest = after_error e rest

  -- The messages that the callback is called with, and how the task ends.
  unfoldable pub callback_loop : List CallbackEvent → Subscriber → Loop
  unfolding called after_error
  callback_loop [] h = ([], waiting)
  callback_loop (cancelled ∷ events) h = ([], by_token)
  callback_loop (had sent ∷ events) h = elim (recv channel msg.decode_slice h sent) [
    | none ↦ callback_loop events h
    | some (result, h') ↦ called result (callback_loop events h')
  ]
