-- ===== src/Node/Publisher/Tests.antt =====
-- The publisher actor with the sample master and a host that gives every listener one address.
use rosrust_async.Base.{◌≡◌, refl, true, false, none, some, [], ◌∷◌, codes, str_eq, ok, arith}
use rosrust_async.Base.Dict.{lookup}
use rosrust_async.Tcpros.Spec.{Topic}
use rosrust_async.Tcpros.Header.Defs.{publisher_fields}
use rosrust_async.Tcpros.Header.Ser.{to_bytes}
use rosrust_async.Xmlrpc.Master.{RosMasterClient}
use rosrust_async.Xmlrpc.Master
use rosrust_async.Xmlrpc.Samples.{Server, sample_world, server, client}
use rosrust_async.Node.Guards.{is_alive, release, new_guard, disarm_alive}
use rosrust_async.Node.Publisher.{
  Host, Publication, PublisherActorState, Registration, replace, create, new_publication, enter,
  cleanup_publication, register_publisher, unregister_publisher, publisher_header,
}
use rosrust_async.Node.Publisher.Messages.{register, drop_publisher, handle}
use rosrust_async.Node.Publisher.Lifetime.{dropped, drop_publisher_race}
use rosrust_async.Node.Publisher.Linked.{Linked, here, after, handled, Reach-Linked}

abbrev host : Host Server
host = record {
  bind = λ addr s. (ok (addr.0, 40000), s);
  channel = λ size s. (s.calls, s);
  subscriber_ids = λ channel s. [];
}

abbrev chatter : Topic
chatter = record {
  name = codes "/chatter";
  spec = record {
    md5sum = codes "*";
    msg_type = codes "std_msgs/String";
    msg_definition = codes "string data";
  };
}

abbrev registration : Registration
registration = record {
  topic = chatter;
  address = codes "127.0.0.1";
  caller_id = codes "/node";
  queue_size = 8;
  latching = false;
  tcp_nodelay = false;
}

abbrev talker : Publication
talker = record {
  topic = chatter;
  address = (codes "127.0.0.1", 40000);
  data_tx = 3;
  header = publisher_header registration;
  header_bytes = [];
  tcp_nodelay = false;
}

-- The topic is in use by one handle.
abbrev used : PublisherActorState
used = record {
  publications = (codes "/chatter", (0, talker)) ∷ [];
  guards = record { name = codes "/chatter"; armed = true; strong = 1 } ∷ [];
}

abbrev empty : PublisherActorState
empty = record { publications = []; guards = [] }

empty-Linked : Linked empty
unfolding lookup
empty-Linked key guard p e = ground arith

Reach-Linked_example :
    Linked
      (handle sample_world client host true
        (drop_publisher (codes "/chatter"))
        (handle sample_world client host true (register registration) (empty, server)).1).1.0
Reach-Linked_example =
    Reach-Linked sample_world client host {x = (empty, server)}
      {y = (handle sample_world client host true (drop_publisher (codes "/chatter"))
        (handle sample_world client host true (register registration) (empty, server)).1).1}
      empty-Linked
      (after (after here (handled true (register registration) (empty, server))) (
        handled true (drop_publisher (codes "/chatter"))
          (handle sample_world client host true (register registration) (empty, server)).1))

drop_publisher_race_example :
    ((release 0 used.guards).0 ≡ some (codes "/chatter"))
    × (let x =
          (register_publisher sample_world client host registration
            (dropped sample_world client host 0 used, server)).1 in
        let y = (unregister_publisher sample_world client host (codes "/chatter") x).1.0 in
        (lookup (codes "/chatter") y.publications ≡ none) × (is_alive 1 y.guards ≡ true))
unfolding lookup str_eq register_publisher is_alive release replace create new_publication to_bytes
    publisher_fields Master.register_publisher enter cleanup_publication new_guard
    Master.unregister_publisher disarm_alive
drop_publisher_race_example =
    drop_publisher_race sample_world client host registration 0 talker
      (record { data_tx = 1; guard = 1 }) used server refl refl refl
