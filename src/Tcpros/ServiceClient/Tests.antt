-- ===== src/Tcpros/ServiceClient/Tests.antt =====
-- A link to an echo that refuses the empty request.
use rosrust_async.Base.{
  ◌≡◌, refl, true, ◌==◌, some, [], ◌∷◌, Str, codes, All, length, drop, Result, ok, err, IsErr,
  arith, if◌then◌else◌,
}
use rosrust_async.Tcpros.Utf8.{is_utf8}
use rosrust_async.Tcpros.Bytes.{frame, write_u32}
use rosrust_async.Tcpros.Net.{connection, frames, calls}
use rosrust_async.Tcpros.SampleNet.{sample_net}
use rosrust_async.Tcpros.Header.Defs.{ProbeResponseHeader, ServiceServerHeader}
use rosrust_async.Tcpros.Header.Visit.{Visitor}
use rosrust_async.Tcpros.Header.De.{Seed}
use rosrust_async.Tcpros.Service.{rpc_task}
use rosrust_async.Tcpros.Service.Rpc.{rounds, responses}
use rosrust_async.Tcpros.ServiceClient as Client
use rosrust_async.Tcpros.ServiceClient.{Decode, ServiceClientLink, ConnectionState}
use rosrust_async.Tcpros.ServiceClient.Calls.{
  Texts, outcomes, over, rpc_task-rpc_task, rpc_task-broken,
}
use rosrust_async.Xmlrpc.Samples.{sample_dxr, sample_world, server, client}

-- A visitor that skips all fields and gives one header.
abbrev skipping : {H : Type 0} → H → Visitor H
skipping h = record {
  State = Unit {0};
  start = tt;
  seed = λ u key. ok Seed.ignored_any;
  accept = λ u key v. tt;
  finish = λ u. ok h;
}

abbrev server_header : ServiceServerHeader
server_header = record { caller_id = codes "/s" }

abbrev probe_visitor : Visitor ProbeResponseHeader
probe_visitor =
    skipping (record { caller_id = codes "/s"; md5sum = codes "*"; msg_type = codes "*" })

abbrev link : ServiceClientLink
link = record {
  service = record {
    name = codes "/add";
    spec = record { md5sum = codes "*"; msg_type = codes "*" };
  };
  persistent = true;
  client_header_bytes = [];
  probe_header_bytes = [];
}

abbrev state : ConnectionState
state = record {
  address = (codes "127.0.0.1", 80);
  tcp_stream = connection [] [];
  server_header = server_header;
}

abbrev echo : Str → Result Str Str
echo request = if length request == 4 then err (codes "empty") else ok request

abbrev encode : Str → Str
encode text = frame text

abbrev decode : Decode
decode bytes = ok (drop 4 bytes)

texts : Texts encode decode
unfolding write_u32
texts = record { encode_frame = λ t. refl; decode_frame = λ t utf8 fits. refl }

rpc_task-rpc_task_example :
    (Client.rpc_task sample_world sample_net client probe_visitor
        (skipping server_header)
        decode
        link
        (frames (codes "ab" ∷ [] ∷ []))
        (some (over state (connection (responses echo encode (codes "ab" ∷ [] ∷ [])) [])), server)
      ≡ (
        outcomes sample_dxr sample_net texts echo (codes "ab" ∷ [] ∷ []),
        (some (over state (connection [] (calls (codes "ab" ∷ [] ∷ [])))), server),
      ))
    × (rpc_task echo encode
          (rounds (codes "ab" ∷ [] ∷ []))
          true
          (connection (calls (codes "ab" ∷ [] ∷ [])) [])
        ≡ ok (connection [] (responses echo encode (codes "ab" ∷ [] ∷ []))))
unfolding is_utf8 write_u32
rpc_task-rpc_task_example =
    rpc_task-rpc_task sample_world sample_net client probe_visitor (skipping server_header) texts
      echo link state server (codes "ab" ∷ [] ∷ []) refl (omega arith, (omega arith, tt))
      ((codes "ab", refl, omega arith), ((refl, omega arith), tt))

rpc_task-broken_example :
    All IsErr
      (Client.rpc_task sample_world sample_net client probe_visitor
        (skipping server_header)
        decode
        link
        (frames (codes "ab" ∷ codes "c" ∷ []))
        (some state, server)).0
    × ((Client.rpc_task sample_world sample_net client probe_visitor
          (skipping server_header)
          decode
          link
          (frames (codes "ab" ∷ codes "c" ∷ []))
          (some state, server)).1.1
        ≡ server)
rpc_task-broken_example =
    rpc_task-broken sample_world sample_net client probe_visitor (skipping server_header) decode
      link (frames (codes "ab" ∷ codes "c" ∷ [])) state server refl refl
