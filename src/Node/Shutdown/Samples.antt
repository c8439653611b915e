-- ===== src/Node/Shutdown/Samples.antt =====
-- A node with a publication and a parameter subscription, and the sample master.
use rosrust_async.Base.{true, false, [], ◌∷◌, codes, ok}
use rosrust_async.Tcpros.SampleNet.{sample_net}
use rosrust_async.Tcpros.Net.{connection}
use rosrust_async.Tcpros.Header.Samples.PublisherSample.{publisher_visitor}
use rosrust_async.Xmlrpc.Samples.{Server, sample_dxr, address_text}
use rosrust_async.Node.Publisher.{Host, Publication}
use rosrust_async.Node.Subscriber.{Peers}
use rosrust_async.Node.Shutdown.{Actors}

abbrev pub host : Host Server
host = record {
  bind = λ addr s. (ok (addr.0, 40000), s);
  channel = λ size s. (s.calls, s);
  subscriber_ids = λ channel s. [];
}

abbrev pub peers : Peers sample_dxr Server
peers = record {
  net = sample_net;
  call_at = λ url method values s. (ok (address_text (codes "TCPROS", url, 40001)), s);
  connect = λ address s. (ok (connection [] []), s);
  visitor = publisher_visitor;
}

abbrev publication : Publication
publication = record {
  topic = record {
    name = codes "/t";
    spec = record { md5sum = codes "*"; msg_type = codes "p/T"; msg_definition = codes "x" };
  };
  address = (codes "127.0.0.1", 40001);
  data_tx = 0;
  header = record {
    caller_id = codes "/a";
    topic = codes "/t";
    md5sum = codes "*";
    msg_type = codes "p/T";
    msg_definition = codes "x";
    latching = false;
  };
  header_bytes = [];
  tcp_nodelay = false;
}

abbrev pub actors : Actors sample_dxr
actors = record {
  publisher = record {
    publications = (codes "/t", (0, publication)) ∷ [];
    guards = record { name = codes "/t"; armed = true; strong = 1 } ∷ [];
  };
  subscriber = record { node_name = codes "/a"; subscriptions = []; guards = [] };
  service = record {
    clients = [];
    client_guards = [];
    servers = [];
    server_guards = [];
    drop_messages = [];
  };
  parameter = record { param_cache = []; subscribed_params = codes "/rate" ∷ [] };
}
