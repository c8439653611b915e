-- ===== src/Node/Api/Wire.antt =====
-- The client's `call_raw` (rosrust-async/src/xmlrpc/protocol/client.rs) joined to a node's server
-- (node/api/server.rs).
use rosrust_async.Base.{ℕ, ◌≡◌, List, Str, Result, ok}
use rosrust_async.Base.Dict.{lookup}
use rosrust_async.Xmlrpc.Dxr.{Dxr}
use rosrust_async.Xmlrpc.Client.{Transport, call_raw, request_to_body, declared}
use rosrust_async.Node.Api.{Params, NodeState}
use rosrust_async.Node.Api.Server.{Xml, handle_rpc}
use rosrust_async.Node.Api.Handlers.{build_router}
use rosrust_async.Node.Api.Calls.{Writes, call_node, direct, call_node-direct}

module _ {dxr : Dxr} (params : Params dxr) (xml : Xml dxr) (show : ℕ → Str)
    (call_xml : Str → List dxr.Value → Str) where
  -- The text of a reply reaches the client, whatever its status.
  arrives : (ℕ × Str) × NodeState dxr → Result (Unit {0}) Str × NodeState dxr
  arrives ((status, text), node) = (ok text, node)

  abbrev wire : Transport dxr (NodeState dxr)
  wire = record {
    serialize_call = λ name values. ok (call_xml name values);
    deserialize_response = xml.deserialize_response;
    post = λ body node. arrives (handle_rpc xml (build_router params) body node);
  }

  -- Where the XML of a call behind the declaration, as `request_to_body` writes it, is read as that call, and
  -- all replies can be written, `call_raw` comes to a direct call of the method's handler.
  call_raw-direct :
      (name : Str) (values : List dxr.Value) (node : NodeState dxr)
      → declared wire show (call_xml name values) ≡ xml.call_text name values
      → Writes xml
      → call_raw wire show name values node
        ≡ direct params xml show name values (lookup name (build_router params)) node
  unfolding call_raw request_to_body arrives
  call_raw-direct name values node same writes =
      rw same (unfold call_node in call_node-direct params xml show name values node writes)
