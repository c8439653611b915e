-- ===== src/Tcpros/Subscription/Tests.antt =====
-- A subscription with one latching publisher.
use rosrust_async.Base.{
  ◌≡◌, refl, true, false, some, List, Str, [], ◌∷◌, ◌++◌, codes, str_eq, Result, ok, arith,
}
use rosrust_async.Base.Dict.{lookup, contains}
use rosrust_async.Tcpros.Bytes.{IoError, frame}
use rosrust_async.Tcpros.Spec.{Topic}
use rosrust_async.Tcpros.Header.Defs.{PublisherHeader}
use rosrust_async.Tcpros.Header.De.{Seed}
use rosrust_async.Tcpros.Header.Visit.{Visitor}
use rosrust_async.Tcpros.Net.{Connection, calls, frames}
use rosrust_async.Tcpros.Subscription.{Subscription, SubscriberTask, data_ready, run_task}
use rosrust_async.Tcpros.Subscription.Delivery.{run_task_latched}
use rosrust_async.Tcpros.Subscription.Interleaved.{
  sent_by, latched_along, run_rounds, run_rounds-merge,
}

abbrev topic : Topic
topic = record {
  name = codes "/t";
  spec = record { md5sum = codes "*"; msg_type = codes "*"; msg_definition = codes "x" };
}

abbrev subscription : Subscription
subscription = record {
  topic = topic;
  header = record {
    caller_id = codes "/b";
    topic = codes "/t";
    md5sum = codes "*";
    msg_type = codes "*";
    msg_definition = codes "x";
    tcp_nodelay = false;
  };
  header_bytes = codes "H";
  publisher_addrs = [];
  latched_msgs = [];
  data_sent = codes "old" ∷ [];
  listened = true;
}

abbrev latching_header : PublisherHeader
latching_header = record {
  caller_id = codes "/a";
  topic = codes "/t";
  md5sum = codes "*";
  msg_type = codes "p/T";
  msg_definition = codes "x";
  latching = true;
}

abbrev task : SubscriberTask
task = record {
  publisher_addr = codes "http://a";
  publisher_header = latching_header;
  incoming = frame (codes "hi");
}

-- A visitor that skips all fields, and a publisher whose header has one.
abbrev skipping_visitor : Visitor PublisherHeader
skipping_visitor = record {
  State = Unit {0};
  start = tt;
  seed = λ u key. ok Seed.ignored_any;
  accept = λ u key v. tt;
  finish = λ u. ok latching_header;
}

abbrev peer : Result IoError Connection
peer = ok (record {
  incoming = frame (frame (codes "latching=1"));
  sent = [];
  open_end = true;
  nodelay = ok tt;
})

-- The addresses of two publishers, by the order in which their messages are read.
abbrev order : List (Str × Str)
order = (codes "a", codes "1") ∷ (codes "b", codes "2") ∷ (codes "a", codes "3") ∷ []

abbrev streams : Str → Str
streams p = calls (sent_by p order) ++ codes "x"

run_rounds-merge_example :
    let x =
      run_rounds
        (λ p. latching_header)
        (codes "a" ∷ codes "b" ∷ codes "a" ∷ [])
        (streams, subscription) in
    (x.1.data_sent ≡ codes "old" ∷ frames (codes "1" ∷ codes "2" ∷ codes "3" ∷ []))
    × (x.1.latched_msgs ≡ latched_along (λ p. latching_header) order [])
    × ((p : Str) → x.0 p ≡ codes "x")
run_rounds-merge_example =
    run_rounds-merge (λ p. latching_header) order streams (λ p. codes "x") subscription
      (omega arith, (omega arith, (omega arith, tt))) refl (λ p. refl)

run_task_latched_example :
    let s' = run_task (data_ready ∷ data_ready ∷ []) task subscription in
    (contains (codes "http://a") s'.publisher_addrs ≡ false)
    × (lookup (codes "/a") s'.latched_msgs ≡ some (frame (codes "hi")))
unfolding str_eq
run_task_latched_example =
    run_task_latched (codes "hi") task subscription (omega arith) refl refl refl refl
