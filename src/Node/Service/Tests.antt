-- ===== src/Node/Service/Tests.antt =====
-- The service actor with the sample master and network, and with a master that cannot be reached at first.
use rosrust_async.Base.{
  none, some, ◌==◌, if◌then◌else◌, true, false, decimal, ◌≡◌, refl, ◌++◌, [], ◌∷◌, codes, ok, err,
}
use rosrust_async.Tcpros.Bytes.{frame, write_u32}
use rosrust_async.Tcpros.Header.Defs.{probe_response_fields, service_server_fields}
use rosrust_async.Tcpros.Header.Ser.{to_bytes}
use rosrust_async.Tcpros.SampleNet.{sample_net}
use rosrust_async.Tcpros.Service.Provider.{
  ServiceProvider, new_provider, service_url, probe_response,
}
use rosrust_async.Xmlrpc.Protocol.{net}
use rosrust_async.Xmlrpc.Master.{World, client}
use rosrust_async.Xmlrpc.Master
use rosrust_async.Xmlrpc.Samples.{Server, sample_dxr, sample_world, server}
use rosrust_async.Xmlrpc.Samples
use rosrust_async.Base.Dict.{lookup}
use rosrust_async.Node.Guards.{is_alive}
use rosrust_async.Node.Service.{ServiceActorState, ServiceRegistration, register_service}
use rosrust_async.Node.Service.Messages.{Reply, handle, drop_service}
use rosrust_async.Node.Service.Messages
use rosrust_async.Node.Service.Offers.{Effect, offers, handle-Effect}
use rosrust_async.Node.Service.Race.{register_service-drop_messages}

abbrev adder : ServiceRegistration
adder = record {
  service = record {
    name = codes "/add";
    spec = record { md5sum = codes "1"; msg_type = codes "p/Add" };
  };
  address = codes "127.0.0.1";
  caller_id = codes "/node";
}

abbrev empty : ServiceActorState
empty = record {
  clients = [];
  client_guards = [];
  servers = [];
  server_guards = [];
  drop_messages = [];
}

-- A master that cannot be reached before it has had a call.
abbrev first_far_world : World sample_dxr
first_far_world = record {
  W = Server;
  call_raw =
      λ method params s. if s.calls == 0 then (err net, s) else Samples.call_raw method params s;
}

abbrev later : Server
later = record server { calls = 1 }

abbrev made : ServiceProvider
made = record {
  service = adder.service;
  address = (codes "127.0.0.1", 40000);
  url = codes "rosrpc://127.0.0.1:40000";
  probe_header_bytes =
      frame (
        frame (codes "callerid=/node") ++ (frame (codes "md5sum=1") ++ frame (codes "type=p/Add")));
  server_header_bytes = frame (frame (codes "callerid=/node"));
}

handle-Effect_example :
    (reply : Reply sample_dxr) × ((handle sample_world sample_net Samples.client true
        (Messages.register_service adder)
        (empty, server)).0
      ≡ ok reply)
    × Effect (Messages.register_service adder) reply (offers empty) (
        offers
          (handle sample_world sample_net Samples.client false
            (Messages.register_service adder)
            (empty, server)).1.0)
handle-Effect_example =
    handle-Effect sample_world sample_net Samples.client false (Messages.register_service adder)
      empty server

-- The server that is set up, with its headers as they go over the wire.
setup_runs :
    new_provider sample_net (adder.address, 0) adder.service adder.caller_id server
    ≡ (ok made, server)
unfolding new_provider service_url probe_response probe_response_fields service_server_fields
    to_bytes decimal write_u32
setup_runs = refl

refused_at_first :
    (Master.register_service first_far_world Samples.client (codes "/add") made.url server).0
    ≡ err (client net)
unfolding Master.register_service
refused_at_first = refl

registered_later :
    let refused =
      (register_service first_far_world sample_net Samples.client adder (empty, server)).1.0 in
    (register_service first_far_world sample_net Samples.client adder (refused, later)).0 ≡ ok 1
unfolding new_provider service_url probe_response probe_response_fields service_server_fields
    to_bytes decimal write_u32 Master.register_service register_service lookup
    rosrust_async.Node.Service.server_at rosrust_async.Node.Service.make_server
    rosrust_async.Node.Service.announce rosrust_async.Node.Service.settled
    rosrust_async.Node.Service.drop_guard rosrust_async.Node.Service.enter_server
    rosrust_async.Node.Guards.new_guard rosrust_async.Node.Guards.release
registered_later = refl

register_service-drop_messages_example :
    let refused =
      (register_service first_far_world sample_net Samples.client adder (empty, server)).1.0 in
    let again = register_service first_far_world sample_net Samples.client adder (refused, later) in
    let read =
      (handle first_far_world sample_net Samples.client true
        (drop_service (codes "/add"))
        again.1).1 in
    (refused.drop_messages ≡ [] ++ (codes "/add" ∷ []))
    × (srv2 : ServiceProvider) × (lookup (codes "/add") again.1.0.servers ≡ some (1, srv2))
    × (lookup (codes "/add") read.0.servers ≡ none)
    × (is_alive 1 read.0.server_guards ≡ true)
    × (read.1
        ≡ (Master.unregister_service first_far_world Samples.client
            (codes "/add")
            srv2.url
            again.1.1).1)
unfolding lookup
register_service-drop_messages_example =
    register_service-drop_messages first_far_world sample_net Samples.client true adder empty server
      server later made (client net) 1 refl setup_runs refused_at_first registered_later
