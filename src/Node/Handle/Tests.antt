-- ===== src/Node/Handle/Tests.antt =====
-- A node with a publication and a parameter subscription, and the sample master.
use rosrust_async.Base.{
  ◌≡◌, refl, true, false, none, some, List, [], ◌∷◌, All, Str, Result, codes, ok, err, IsErr,
}
use rosrust_async.Base.Dict.{contains}
use rosrust_async.Tcpros.SampleNet.{sample_net}
use rosrust_async.Tcpros.Net.{connection}
use rosrust_async.Tcpros.Header.Samples.PublisherSample.{publisher_visitor}
use rosrust_async.Xmlrpc.Samples.{Server, sample_dxr, sample_world, server, address_text}
use rosrust_async.Node.Publisher.{Host, Publication}
use rosrust_async.Node.Subscriber.{Peers}
use rosrust_async.Node.Shutdown.{Actors}
use rosrust_async.Node.Parameter.{ParameterActorState}
use rosrust_async.Node.Handle.{NodeInfo, ActorRefs}
use rosrust_async.Node.Handle.Parameters.{set_param, get_param_cached}
use rosrust_async.Node.Handle.Cached.{set_param-get_param_cached}

abbrev host : Host Server
host = record {
  bind = λ addr s. (ok (addr.0, 40000), s);
  channel = λ size s. (s.calls, s);
  subscriber_ids = λ channel s. [];
}

abbrev peers : Peers sample_dxr Server
peers = record {
  net = sample_net;
  call_at = λ url method values s. (ok (address_text (codes "TCPROS", url, 40001)), s);
  connect = λ address s. (ok (connection [] []), s);
  visitor = publisher_visitor;
}

abbrev publication : Publication
publication = record {
  topic = record {
    name = codes "/t";
    spec = record { md5sum = codes "*"; msg_type = codes "p/T"; msg_definition = codes "x" };
  };
  address = (codes "127.0.0.1", 40001);
  data_tx = 0;
  header = record {
    caller_id = codes "/a";
    topic = codes "/t";
    md5sum = codes "*";
    msg_type = codes "p/T";
    msg_definition = codes "x";
    latching = false;
  };
  header_bytes = [];
  tcp_nodelay = false;
}

abbrev actors : Actors sample_dxr
actors = record {
  publisher = record {
    publications = (codes "/t", (0, publication)) ∷ [];
    guards = record { name = codes "/t"; armed = true; strong = 1 } ∷ [];
  };
  subscriber = record { node_name = codes "/a"; subscriptions = []; guards = [] };
  service = record {
    clients = [];
    client_guards = [];
    servers = [];
    server_guards = [];
    drop_messages = [];
  };
  parameter = record { param_cache = []; subscribed_params = codes "/rate" ∷ [] };
}

abbrev node : NodeInfo
node = record {
  name = codes "/a";
  hostname = codes "h";
  address = (codes "0.0.0.0", 4000);
  api_url = codes "http://h:4000/";
  master_url = codes "http://m/";
}

abbrev call_error : Str
call_error = codes "closed"

abbrev refs : ActorRefs sample_dxr
refs = record {
  pub_actor = some actors.publisher;
  sub_actor = some actors.subscriber;
  svc_actor = some actors.service;
  param_actor = some actors.parameter;
}

set_param-get_param_cached_example :
    let x =
      (set_param sample_world sample_net host peers node call_error ok
        (codes "/rate")
        (5 ∷ [])
        (refs, server)).1 in
    get_param_cached sample_world sample_net host peers node call_error ok (codes "/rate") x
    ≡ (ok (some (5 ∷ [])), x)
unfolding contains rosrust_async.Base.str_eq set_param rosrust_async.Node.Parameter.set_param_value
    rosrust_async.Xmlrpc.Master.set_param_any
set_param-get_param_cached_example =
    set_param-get_param_cached sample_world sample_net host peers node call_error ok ok
      (codes "/rate") (5 ∷ []) (5 ∷ []) refs actors.parameter server refl refl refl refl refl
