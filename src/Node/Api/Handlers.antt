-- ===== src/Node/Api/Handlers.antt =====
-- The handlers of the API: rosrust-async/src/node/api/router.rs. The conversion of an answer of these types
-- to a value does not fail.
use rosrust_async.Base.{
  ◌^◌, ◌%◌, Bool, true, false, Option, none, some, List, [], ◌∷◌, ◌++◌, Str, codes, decimal, ok,
}
use rosrust_async.Base.Action.{Action, ◌>>=◌, ◌>>◌, done, fail, from_result}
use rosrust_async.Base.Dict.{add}
use rosrust_async.Xmlrpc.Dxr.{Dxr}
use rosrust_async.Xmlrpc.Protocol.{ApiError, invalid_request, server_error}
use rosrust_async.Tcpros.Net.{SocketAddr}
use rosrust_async.Node.Publisher.{get_publisher_address, get_publications}
use rosrust_async.Node.Subscriber.{get_subscriptions}
use rosrust_async.Node.Api.{
  HandlerError, api, HandlerResponse, Params, NodeState, Handler, get_params,
}
use rosrust_async.Node.Api.Server.{HandlerMap, add_method}

-- `HashSet::from_iter`.
abbrev pub from_iter : List Str → List Str
from_iter [] = []
from_iter (url ∷ rest) = add url (from_iter rest)

module _ {dxr : Dxr} (params : Params dxr) where
  open dxr use {Value, i4, from_text, from_pairs, from_address}

  abbrev Step : Type 0 → Type 0
  Step A = Action (NodeState dxr) (HandlerError dxr) A

  abbrev respond : Str → Value → Step (HandlerResponse dxr)
  respond msg value = done (record { msg = msg; data_ = value })

  abbrev refuse : {A : Type 0} → ApiError → Step A
  refuse e = fail (api e)

  abbrev read_state : Step (NodeState dxr)
  read_state node = (ok node, node)

  abbrev update_state : (NodeState dxr → NodeState dxr) → Step (Unit {0})
  update_state f node = (ok tt, f node)

  -- `call!` and `cast!` of an actor that has stopped.
  abbrev ask : {S : Type 0} → Str → Str → Option S → Step S
  ask what error none = refuse (server_error (what ++ error))
  ask what error (some s) = done s

  unfoldable pub get_bus_stats : Handler dxr
  get_bus_stats values = do
    caller_id ← from_result (get_params params.caller values)
    refuse (server_error (codes "getBusStats not implemented!"))

  unfoldable pub get_bus_info : Handler dxr
  get_bus_info values = do
    caller_id ← from_result (get_params params.caller values)
    refuse (server_error (codes "getBusInfo not implemented!"))

  unfoldable pub get_master_uri : Handler dxr
  get_master_uri values = do
    caller_id ← from_result (get_params params.caller values)
    node ← read_state
    respond (codes "Master URI") (from_text node.master_url)

  shutdown_text : Str → Str → Str
  shutdown_text caller_id reason =
      codes "API request: [caller_id: "
      ++ (caller_id ++ (codes ", reason: \"" ++ (reason ++ codes "\"]")))

  -- `trigger_shutdown`: the first reason stays.
  trigger : Str → Option Str → Option Str
  trigger reason none = some reason
  trigger reason (some first) = some first

  unfoldable pub shutdown : Handler dxr
  unfolding shutdown_text trigger
  shutdown values = do
    (caller_id, reason) ← from_result (get_params params.caller_text values)
    update_state (λ node. record node {
      shutdown_reason = trigger (shutdown_text caller_id reason) node.shutdown_reason;
    })
    respond (codes "Node shut down") (i4 0)

  -- `as i32` keeps the bits.
  unfoldable pub get_pid : Handler dxr
  get_pid values = do
    caller_id ← from_result (get_params params.caller values)
    node ← read_state
    respond (codes "PID") (i4 (node.pid % 2 ^ 32))

  unfoldable pub get_subscriptions_handler : Handler dxr
  get_subscriptions_handler values = do
    caller_id ← from_result (get_params params.caller values)
    node ← read_state
    sub_actor ← ask (codes "Failed to get subscriptions: ") node.actor_error node.sub_actor
    respond (codes "List of subscriptions") (from_pairs (get_subscriptions sub_actor))

  unfoldable pub get_publications_handler : Handler dxr
  get_publications_handler values = do
    caller_id ← from_result (get_params params.caller values)
    node ← read_state
    pub_actor ← ask (codes "Failed to get publications: ") node.actor_error node.pub_actor
    respond (codes "List of publications") (from_pairs (get_publications pub_actor))

  runs : Bool → Option (Unit {0})
  runs true = some tt
  runs false = none

  unfoldable pub param_update : Handler dxr
  unfolding runs
  param_update values = do
    (caller_id, param_name, new_value) ← from_result (get_params params.caller_text_value values)
    node ← read_state
    ask (codes "Failed to update parameter: ") node.actor_error (runs node.param_actor_runs)
    update_state
        (λ n. record n { param_updates = n.param_updates ++ ((param_name, new_value) ∷ []) })
    respond (codes "Parameter updated") (i4 0)

  unfoldable pub publisher_update : Handler dxr
  publisher_update values = do
    (caller_id, topic_name, publishers) ← from_result (get_params params.caller_text_texts values)
    node ← read_state
    _ ← ask (codes "Failed to update connected publishers: ") node.actor_error node.sub_actor
    update_state (λ n. record n {
      publisher_updates = n.publisher_updates ++ ((topic_name, from_iter publishers) ∷ []);
    })
    respond (codes "Publishers updated") (i4 0)

  not_publishing : Str → Str
  not_publishing topic_name =
      codes "Node is not currently publishing to topic \"" ++ (topic_name ++ codes "\"")

  unfoldable pub ready : NodeState dxr → Str → Option SocketAddr → Step (HandlerResponse dxr)
  unfolding not_publishing
  ready node topic_name none = refuse (invalid_request (not_publishing topic_name))
  ready node topic_name (some (ip, port)) =
      respond (codes "ready on " ++ (node.hostname ++ (codes ":" ++ decimal port)))
        (from_address (codes "TCPROS", node.hostname, port))

  unfoldable pub request_topic : Handler dxr
  unfolding ready not_publishing
  request_topic values = do
    (caller_id, topic_name, protocols) ← from_result (get_params params.caller_text_lists values)
    node ← read_state
    pub_actor ← ask (codes "Failed to set up publisher channel: ") node.actor_error node.pub_actor
    ready node topic_name (get_publisher_address pub_actor topic_name)

  -- The handlers by their methods.
  unfoldable pub build_router : HandlerMap dxr
  build_router = add_method (codes "requestTopic") request_topic (
      add_method (codes "publisherUpdate") publisher_update (
        add_method (codes "paramUpdate") param_update (
          add_method (codes "getPublications") get_publications_handler (
            add_method (codes "getSubscriptions") get_subscriptions_handler (
              add_method (codes "getPid") get_pid (
                add_method (codes "shutdown") shutdown (
                  add_method (codes "getMasterUri") get_master_uri (
                    add_method (codes "getBusInfo") get_bus_info
                      (add_method (codes "getBusStats") get_bus_stats [])))))))))
