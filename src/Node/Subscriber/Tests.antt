-- ===== src/Node/Subscriber/Tests.antt =====
-- The subscriber actor with the sample master and network, and nodes that all publish at one port.
use rosrust_async.Base.{
  ℕ, ◌+◌, ◌≡◌, refl, true, false, none, some, [], ◌∷◌, map, get_elem?, Option, Str, codes, str_eq,
  Result, ok, arith,
}
use rosrust_async.Base.Dict.{lookup}
use rosrust_async.Tcpros.Bytes.{IoError, frame}
use rosrust_async.Tcpros.Header.Defs.{PublisherHeader}
use rosrust_async.Tcpros.Header.Visit.{Visitor}
use rosrust_async.Tcpros.Header.De.{Seed}
use rosrust_async.Tcpros.Net.{connection, frames, Broadcast}
use rosrust_async.Tcpros.SampleNet.{sample_net}
use rosrust_async.Tcpros.Spec.{Topic, validate_topic_specs}
use rosrust_async.Tcpros.Subscription.{Subscription, subscriber_task}
use rosrust_async.Xmlrpc.Samples.{Server, sample_dxr, sample_world, server, client, address_text}
use rosrust_async.Node.Guards.{is_alive, retain}
use rosrust_async.Node.Subscriber.{
  Peers, Feed, SubscriberActorState, Subscriber, Registration, new_state, register_subscriber,
}
use rosrust_async.Node.Subscriber.Messages.{handle, register, update}
use rosrust_async.Node.Subscriber.Linked.{Linked}
use rosrust_async.Node.Subscriber.Reachable.{start, message, Reachable-Linked}
use rosrust_async.Node.Subscriber.Receive.{receive}
use rosrust_async.Node.Subscriber.Handles.{clone, drop_handle, clone-receive}
use rosrust_async.Node.Subscriber.Shared.{register_subscriber-receive}

abbrev topic : Topic
topic = record {
  name = codes "/t";
  spec = record { md5sum = codes "*"; msg_type = codes "*"; msg_definition = codes "x" };
}

abbrev publisher_header : PublisherHeader
publisher_header = record {
  caller_id = codes "/a";
  topic = codes "/t";
  md5sum = codes "*";
  msg_type = codes "p/T";
  msg_definition = codes "x";
  latching = true;
}

-- A visitor that skips all fields.
abbrev visitor : Visitor PublisherHeader
visitor = record {
  State = Unit {0};
  start = tt;
  seed = λ u key. ok Seed.ignored_any;
  accept = λ u key v. tt;
  finish = λ u. ok publisher_header;
}

abbrev peers : Peers sample_dxr Server
peers = record {
  net = sample_net;
  call_at = λ url method values s. (ok (address_text (codes "TCPROS", url, 40001)), s);
  connect = λ address s. (ok (connection (frame (frame (codes "latching=1"))) []), s);
  visitor = visitor;
}

abbrev registration : Registration
registration = record { topic = topic; caller_id = codes "/b"; tcp_nodelay = false }

abbrev subscription : Subscription
subscription = record {
  topic = topic;
  header = record {
    caller_id = codes "/b";
    topic = codes "/t";
    md5sum = codes "*";
    msg_type = codes "*";
    msg_definition = codes "x";
    tcp_nodelay = false;
  };
  header_bytes = codes "H";
  publisher_addrs = [];
  latched_msgs = (codes "/a", codes "L") ∷ [];
  data_sent = codes "old" ∷ [];
  listened = true;
}

abbrev feed : Feed
feed = record { subscription = subscription; tasks = [] }

abbrev state : SubscriberActorState
state = record {
  node_name = codes "/b";
  subscriptions = (codes "/t", (0, feed)) ∷ [];
  guards = record { name = codes "/t"; armed = true; strong = 1 } ∷ [];
}

-- A channel that gives the next message, or waits.
abbrev next_of : ℕ → Option Str → Option (Result (Unit {0}) Str × ℕ)
next_of n none = none
next_of n (some msg) = some (ok msg, n + 1)

abbrev channel : Broadcast
channel = record {
  RecvError = Unit {0};
  is_closed = λ e. true;
  capacity = 8;
  recv = λ n sent. next_of n (get_elem? sent n);
  recv_next = λ n sent msg found few. rw (found) refl;
}

-- After the actor has registered a subscriber with the master and been told of a publisher.
Reachable-Linked_example :
    Linked
      (handle sample_world client peers true (update (codes "/t") (codes "http://a" ∷ [])) (
        (handle sample_world client peers true
            (register registration)
            (new_state (codes "/b"), server)).1.0,
        server,
      )).1.0
Reachable-Linked_example = Reachable-Linked sample_world client peers _ (
    message _ true (update (codes "/t") (codes "http://a" ∷ [])) server
      (message (new_state (codes "/b")) true (register registration) server (start (codes "/b"))))

register_subscriber-receive_example :
    (h : Subscriber) × (register_subscriber sample_world client peers registration (state, server)
      ≡ (ok h, (record state { guards = retain 0 state.guards }, server)))
    × (receive channel 3 h (codes "old" ∷ frames (codes "a" ∷ codes "b" ∷ []))
        ≡ map ok (codes "L" ∷ frames (codes "a" ∷ codes "b" ∷ [])))
unfolding lookup str_eq is_alive validate_topic_specs
    rosrust_async.Tcpros.Spec.are_fields_compatible subscriber_task
    rosrust_async.Tcpros.Bytes.read_tcpros_frame rosrust_async.Tcpros.Bytes.read_u32
    rosrust_async.Tcpros.Bytes.write_u32 rosrust_async.Tcpros.Bytes.read_exact
register_subscriber-receive_example =
    register_subscriber-receive sample_world client peers channel registration state server 0 feed
      (codes "a" ∷ codes "b" ∷ []) publisher_header (codes "x") refl refl refl refl
      (omega arith, (omega arith, tt)) (omega arith)

-- It has read one of two messages of the channel.
abbrev behind : Subscriber
behind = record { latched_msgs = codes "L" ∷ []; data_rx = 1; guard = 0 }

clone-receive_example :
    let (h', s') = clone behind (codes "a" ∷ codes "b" ∷ []) state in
    (receive channel 3 behind (codes "a" ∷ codes "b" ∷ codes "c" ∷ [])
      ≡ map ok (codes "L" ∷ codes "b" ∷ codes "c" ∷ []))
    × (receive channel 2 h' (codes "a" ∷ codes "b" ∷ codes "c" ∷ [])
        ≡ map ok (codes "L" ∷ codes "c" ∷ []))
    × ((drop_handle h' s').0 ≡ none)
    × (is_alive 0 (drop_handle h' s').1.guards ≡ true)
unfolding is_alive
clone-receive_example =
    clone-receive channel behind (codes "a" ∷ []) (codes "b" ∷ []) (codes "c" ∷ []) state refl refl
      (omega arith)
