-- ===== src/Node/Typed/Tests.antt =====
-- Messages of one byte, over the channels and the link of rosrust-async/src/node/actors.
use rosrust_async.Base.{
  ℕ, ◌+◌, ◌≡◌, refl, true, false, Option, none, some, [], ◌∷◌, map, get_elem?, Str, codes, drop,
  Result, ok, err, arith, if◌then◌else◌, ◌==◌,
}
use rosrust_async.Tcpros.Utf8.{is_utf8}
use rosrust_async.Tcpros.Bytes.{IoError, frame, write_u32}
use rosrust_async.Tcpros.Net.{Connection, connection, Broadcast, frames, calls}
use rosrust_async.Tcpros.SampleNet.{sample_net}
use rosrust_async.Tcpros.Header.Defs.{
  PublisherHeader, SubscriberHeader, ProbeResponseHeader, ServiceServerHeader,
}
use rosrust_async.Tcpros.Header.Visit.{Visitor}
use rosrust_async.Tcpros.Header.De.{Seed}
use rosrust_async.Tcpros.Subscription.{Subscription, subscriber_task}
use rosrust_async.Tcpros.Subscription.Delivery.{rounds}
use rosrust_async.Tcpros.Publication.{publisher_task}
use rosrust_async.Tcpros.Publication.Delivery.{sends}
use rosrust_async.Tcpros.Service.{rpc_task}
use rosrust_async.Tcpros.Service.Rpc as Rpc
use rosrust_async.Tcpros.Service.Rpc.{responses}
use rosrust_async.Tcpros.ServiceClient as Client
use rosrust_async.Tcpros.ServiceClient.{Decode, ServiceClientLink, ConnectionState}
use rosrust_async.Tcpros.ServiceClient.Calls.{Texts, over}
use rosrust_async.Xmlrpc.Samples.{sample_dxr, sample_world, server, client}
use rosrust_async.Node.Subscriber.Receive.{recv_failed}
use rosrust_async.Node.Typed.{
  RosMsg, send_message, send, Ended, waiting, by_token, by_closing, by_error, had, cancelled,
  callback_loop, erased_callback, call, closed, dropped, ServiceClientError, rpc_send, rpc_recv,
}
use rosrust_async.Node.Typed.Delivery.{
  Framed, send_all, heard, bodies, looks, send_all-callback_loop,
}
use rosrust_async.Node.Typed.Answers.{answer, call_all, call_all-callback}

-- A channel that gives the next message, or waits.
abbrev next_of : ℕ → Option Str → Option (Result (Unit {0}) Str × ℕ)
next_of n none = none
next_of n (some msg) = some (ok msg, n + 1)

abbrev channel : Broadcast
channel = record {
  RecvError = Unit {0};
  is_closed = λ e. true;
  capacity = 8;
  recv = λ n sent. next_of n (get_elem? sent n);
  recv_next = λ n sent msg found few. rw (found) refl;
}

abbrev head_of : Str → Result IoError ℕ
head_of [] = err IoError.other
head_of (b ∷ rest) = ok b

abbrev byte : RosMsg ℕ
byte = record {
  encode_vec = λ n. ok (frame (n ∷ []));
  decode_slice = λ bytes. head_of (drop 4 bytes);
}

decode_byte : (n : ℕ) → head_of (drop 4 (frame (n ∷ []))) ≡ ok n
unfolding write_u32
decode_byte n = refl

abbrev framed : Framed byte
framed = record {
  body = λ n. n ∷ [];
  encode_body = λ n. refl;
  decode_body = λ n fit. decode_byte n;
}

abbrev header : SubscriberHeader
header = record {
  caller_id = codes "/b";
  topic = codes "/t";
  md5sum = codes "*";
  msg_type = codes "*";
  msg_definition = codes "x";
  tcp_nodelay = false;
}

abbrev publisher_header : PublisherHeader
publisher_header = record {
  caller_id = codes "/a";
  topic = codes "/t";
  md5sum = codes "*";
  msg_type = codes "p/T";
  msg_definition = codes "x";
  latching = true;
}

abbrev subscription : Subscription
subscription = record {
  topic = record {
    name = codes "/t";
    spec = record { md5sum = codes "*"; msg_type = codes "*"; msg_definition = codes "x" };
  };
  header = header;
  header_bytes = [];
  publisher_addrs = [];
  latched_msgs = [];
  data_sent = codes "old" ∷ [];
  listened = true;
}

send_message_unheard :
    send_message byte 7 (record { sent = []; listened = false })
    ≡ (err (send (frame (7 ∷ []))), record { sent = []; listened = false })
unfolding send_message rosrust_async.Node.Typed.send_raw
send_message_unheard = refl

callback_loop_ends :
    callback_loop channel byte
      (had (frame (7 ∷ []) ∷ []) ∷ had (frame (7 ∷ []) ∷ []) ∷ cancelled ∷ had [] ∷ [])
      (record { latched_msgs = frame (9 ∷ []) ∷ []; data_rx = 0; guard = 0 })
    ≡ (9 ∷ 7 ∷ [], by_token)
unfolding callback_loop rosrust_async.Node.Subscriber.Receive.recv
    rosrust_async.Node.Subscriber.Receive.recv_raw write_u32
callback_loop_ends = refl

call-closed : call {LinkError = Str} byte byte (λ data_. closed) 7 ≡ err (rpc_send (frame (7 ∷ [])))
unfolding call
call-closed = refl

call-dropped : call {LinkError = Str} byte byte (λ data_. dropped) 7 ≡ err rpc_recv
unfolding call
call-dropped = refl

send_all-callback_loop_example :
    let (results, tx) = send_all framed (7 ∷ 9 ∷ []) (heard framed (codes "m" ∷ [])) in
    (results ≡ ok tt ∷ ok tt ∷ [])
    × (c : Connection) × (publisher_task channel
          (sends tx.sent (bodies framed (7 ∷ 9 ∷ [])))
          (record {
            subscriber_id = codes "/b";
            latched_message = none;
            data_rx = 1;
            subscriber_stream = connection [] [];
          })
        ≡ ok c)
    × (callback_loop channel byte
          (looks framed
            (subscriber_task
              (rounds (bodies framed (7 ∷ 9 ∷ [])))
              publisher_header
              c.sent
              subscription).1.data_sent
            (7 ∷ 9 ∷ []))
          (record { latched_msgs = []; data_rx = 1; guard = 0 })
        ≡ (7 ∷ 9 ∷ [], waiting))
send_all-callback_loop_example =
    send_all-callback_loop framed channel channel (7 ∷ 9 ∷ []) (codes "m" ∷ []) (codes "/b")
      publisher_header subscription 0 (omega arith) (omega arith) (omega arith, (omega arith, tt))
      refl

abbrev skipping : {H : Type 0} → H → Visitor H
skipping h = record {
  State = Unit {0};
  start = tt;
  seed = λ u key. ok Seed.ignored_any;
  accept = λ u key v. tt;
  finish = λ u. ok h;
}

abbrev link : ServiceClientLink
link = record {
  service = record {
    name = codes "/next";
    spec = record { md5sum = codes "*"; msg_type = codes "*" };
  };
  persistent = true;
  client_header_bytes = [];
  probe_header_bytes = [];
}

abbrev state : ConnectionState
state = record {
  address = (codes "127.0.0.1", 80);
  tcp_stream = connection [] [];
  server_header = record { caller_id = codes "/s" };
}

abbrev probe_visitor : Visitor ProbeResponseHeader
probe_visitor =
    skipping (record { caller_id = codes "/s"; md5sum = codes "*"; msg_type = codes "*" })

abbrev server_visitor : Visitor ServiceServerHeader
server_visitor = skipping (record { caller_id = codes "/s" })

abbrev text_of : IoError → Str
text_of e = codes "io"

-- It refuses the zero.
abbrev successor : ℕ → Result Str ℕ
successor n = if n == 0 then err (codes "zero") else ok (n + 1)

abbrev decode_text : Decode
decode_text bytes = ok (drop 4 bytes)

texts : Texts frame decode_text
unfolding write_u32
texts = record { encode_frame = λ t. refl; decode_frame = λ t utf8 fits. refl }

call_all-callback_example :
    let requests = bodies framed (7 ∷ 0 ∷ []) in
    let erased = erased_callback byte byte text_of successor in
    let answered =
      Client.rpc_task sample_world sample_net client probe_visitor server_visitor decode_text link
        (frames requests)
        (some (over state (connection (responses erased frame requests) [])), server) in
    (call_all byte byte (7 ∷ 0 ∷ []) answered.0
      ≡ map
          (λ q. answer framed framed text_of successor sample_dxr sample_net texts (successor q))
          (7 ∷ 0 ∷ []))
    × (rpc_task erased frame (Rpc.rounds requests) true (connection (calls requests) [])
        ≡ ok (connection [] (responses erased frame requests)))
    × (answered.1 ≡ (some (over state (connection [] (calls requests))), server))
unfolding is_utf8
call_all-callback_example =
    call_all-callback sample_world sample_net client probe_visitor server_visitor texts framed
      framed text_of successor link state server (7 ∷ 0 ∷ []) refl (omega arith, (omega arith, tt))
      (omega arith, ((refl, omega arith), tt))
