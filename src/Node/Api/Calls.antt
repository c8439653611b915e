-- ===== src/Node/Api/Calls.antt =====
-- A node's API seen from a client: xmlrpc/slave.rs and protocol/client.rs over node/api of
-- rosrust-async/src.
use rosrust_async.Base.{
  ℕ, ◌≡◌, refl, Option, none, some, Option-cases, inl, inr, List, [], ◌∷◌, ◌++◌, Str, codes, str_eq,
  Result, ok, err,
}
use rosrust_async.Base.Action.{Action}
use rosrust_async.Base.Dict.{lookup, insert}
use rosrust_async.Tcpros.Net.{SocketAddr}
use rosrust_async.Xmlrpc.Dxr.{Dxr}
use rosrust_async.Xmlrpc.Protocol.{
  ApiError, server_error, invalid_request, ApiResponse, success, error, ClientError, rpc_fault,
  try_to_value, response_to_result, response_to_result-try_to_value,
}
use rosrust_async.Xmlrpc.Protocol
use rosrust_async.Xmlrpc.Slave.{CallAt, SlaveClientError}
use rosrust_async.Xmlrpc.Slave
use rosrust_async.Node.Publisher.{PublisherActorState, get_publisher_address}
use rosrust_async.Node.Api.{
  HandlerError, dxr_failure, api, HandlerResponse, Params, NodeState, Handler, get_params,
  into_response,
}
use rosrust_async.Node.Api.Server.{
  Reply, Xml, HandlerMap, handle_rpc, read_reply, fault_reply, method_reply, default_fault_code,
}
use rosrust_async.Node.Api.Server
use rosrust_async.Node.Api.Handlers
use rosrust_async.Node.Subscriber.{SubscriberActorState}
use rosrust_async.Node.Api.Handlers.{build_router, from_iter}

-- All replies can be written.
abbrev pub Writes : {dxr : Dxr} → Xml dxr → Type 0
Writes {dxr = dxr} xml = (reply : Reply dxr) → (text : Str) × (xml.serialize_xml reply ≡ ok text)

module _ {dxr : Dxr} (params : Params dxr) (xml : Xml dxr) (show : ℕ → Str) where
  open dxr use {Value}

  received : (ℕ × Str) × NodeState dxr → Result (ClientError dxr) Value × NodeState dxr
  received ((status, body), node) =
      (response_to_result dxr show (xml.deserialize_response body), node)

  -- A call over the wire: the body that the client writes, the server's answer, and what the client reads.
  unfoldable pub call_node : CallAt dxr (NodeState dxr)
  unfolding received
  call_node name values node =
      received (handle_rpc xml (build_router params) (xml.call_text name values) node)

  -- What a client is told of a handler's result.
  abbrev pub told : Result (HandlerError dxr) (HandlerResponse dxr) → Result (ClientError dxr) Value
  told (ok value) = ok value.data_
  told (err (api e)) = err (Protocol.api e)
  told (err (dxr_failure e)) =
      err (Protocol.api (server_error (codes "Internal server error: " ++ dxr.show_error e)))

  abbrev pub direct :
      Str → List Value → Option (Handler dxr) → Action (NodeState dxr) (ClientError dxr) Value
  direct name values none node =
      (err (rpc_fault default_fault_code (codes "Unknown method: " ++ name)), node)
  direct name values (some handler) node = (told (handler values node).0, (handler values node).1)

  read_back :
      (reply : Reply dxr) (node : NodeState dxr)
      → Writes xml
      → received (Server.make_response xml reply, node)
        ≡ (response_to_result dxr show (read_reply reply), node)
  unfolding received Server.make_response Server.made
  read_back reply node writes =
      let (text, e) = writes reply in
      rw (e, Server.made, xml.deserialize_response-serialize_xml reply text e) refl

  told-response :
      (result : Result (HandlerError dxr) (HandlerResponse dxr))
      → response_to_result dxr show
          (read_reply (method_reply (try_to_value dxr (Server.api_response xml result))))
        ≡ told result
  unfolding Server.api_response into_response
  told-response (ok value) =
      (response_to_result-try_to_value dxr show value.msg value.data_ (server_error []) 0).0
  told-response (err (api e)) = (response_to_result-try_to_value dxr show [] dxr.empty_struct e 0).1
  told-response (err (dxr_failure e)) =
      (response_to_result-try_to_value dxr show [] dxr.empty_struct
        (server_error (codes "Internal server error: " ++ dxr.show_error e)) 0).1

  -- Over a wire that can write all replies, a client's call of a node comes to a direct call of the
  -- method's handler, in its result and in what it does to the node: the client gets the handler's value,
  -- or its error, where an error of a conversion is a server error; a method without a handler is a fault
  -- with code -1 that names it, and does nothing to the node.
  pub call_node-direct :
      (name : Str) (values : List Value) (node : NodeState dxr)
      → Writes xml
      → call_node name values node ≡ direct name values (lookup name (build_router params)) node
  unfolding call_node handle_rpc Server.handle_call Server.handle_with Server.finished
      response_to_result
  call_node-direct name values node writes =
      rw (xml.deserialize_call-call_text name values, Server.handle_call)
        (with_handler (lookup name (build_router params)))
    where
      with_handler :
          (o : Option (Handler dxr))
          → received (Server.handle_with xml name values o node) ≡ direct name values o node
      with_handler none =
          read_back (fault_reply default_fault_code (codes "Unknown method: " ++ name)) node writes
      with_handler (some handler) =
          rw
            (
              read_back
                  (method_reply
                    (try_to_value dxr (Server.api_response xml (handler values node).0)))
                  (handler values node).1 writes,
              told-response (handler values node).0,
            )
            refl

  -- What a subscriber is told of a topic's channel.
  abbrev Channel : Type 0
  Channel = Result (SlaveClientError dxr) (Option (Str × Str × ℕ))

  abbrev pub channel_at : Str → Str → Option SocketAddr → Channel
  channel_at hostname topic_name (some (ip, port)) = ok (some (codes "TCPROS", hostname, port))
  channel_at hostname topic_name none = err (
      Slave.client (
        Protocol.api (
          invalid_request
            (codes "Node is not currently publishing to topic \"" ++ (topic_name ++ codes "\"")))))

  abbrev pub channel_from : Str → Str → Option PublisherActorState → Channel
  channel_from hostname topic_name none = ok none
  channel_from hostname topic_name (some actor) =
      channel_at hostname topic_name (get_publisher_address actor topic_name)

  request_topic-found :
      lookup (codes "requestTopic") (build_router params) ≡ some (Handlers.request_topic params)
  unfolding build_router lookup insert str_eq
  request_topic-found = refl

  publisher_update-found :
      lookup (codes "publisherUpdate") (build_router params)
      ≡ some (Handlers.publisher_update params)
  unfolding build_router lookup insert str_eq
  publisher_update-found = refl

  -- A node that is asked for the channel of a topic, whatever protocols it is offered, also none, answers
  -- with TCPROS, its host name and the port of the topic's publication; a node that does not publish the
  -- topic is an error for the client, and one whose publisher actor has stopped has no channel. The node
  -- is left as it was.
  pub request_topic-channel_from :
      (caller_id topic_name : Str) (protocols : List (List Str)) (node : NodeState dxr)
      → Writes xml
      → Slave.request_topic call_node caller_id topic_name protocols node
        ≡ (channel_from node.hostname topic_name node.pub_actor, node)
  unfolding Slave.request_topic Slave.call Handlers.request_topic get_params
  request_topic-channel_from caller_id topic_name protocols node writes =
      rw
        (
          call_node-direct (codes "requestTopic") args node writes,
          request_topic-found,
          params.caller_text_lists-from_lists caller_id topic_name protocols,
        )
        (elim (Option-cases node.pub_actor) [
          | inl stopped ↦ rw (stopped) refl
          | inr (actor, e) ↦
              rw (e, channel_from)
                (elim (Option-cases (get_publisher_address actor topic_name)) [
                  | inl absent ↦ rw (absent, Handlers.ready, channel_at) refl
                  | inr ((ip, port), at) ↦
                      rw
                        (
                          at,
                          Handlers.ready,
                          channel_at,
                          dxr.to_address-from_address (codes "TCPROS", node.hostname, port),
                        )
                        refl
                ])
        ])
    where
      args : List Value
      args = dxr.from_text caller_id ∷ dxr.from_text topic_name ∷ dxr.from_lists protocols ∷ []

  -- A node that is told of a topic's publishers puts one message into the mailbox of its subscriber actor,
  -- behind those that wait: the topic, and the publishers without repetition. Nothing else changes.
  pub publisher_update-mailbox :
      (caller_id topic_name : Str) (publishers : List Str) (node : NodeState dxr)
      (actor : SubscriberActorState)
      → Writes xml
      → node.sub_actor ≡ some actor
      → (Slave.publisher_update call_node caller_id topic_name publishers node).1 ≡ record node {
        publisher_updates = node.publisher_updates ++ ((topic_name, from_iter publishers) ∷ []);
      }
  unfolding Slave.publisher_update Slave.call Handlers.publisher_update get_params
  publisher_update-mailbox caller_id topic_name publishers node actor writes runs =
      rw
        (
          call_node-direct (codes "publisherUpdate") args node writes,
          publisher_update-found,
          params.caller_text_texts-from_texts caller_id topic_name publishers,
          runs,
        )
        refl
    where
      args : List Value
      args = dxr.from_text caller_id ∷ dxr.from_text topic_name ∷ dxr.from_texts publishers ∷ []
