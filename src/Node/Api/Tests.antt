-- ===== src/Node/Api/Tests.antt =====
-- A node with one publication, and the sample XML-RPC library.
use rosrust_async.Base.{
  ℕ, zero, suc, ◌≡◌, refl, ap, subst, Bool, true, false, Option, none, some, List, [], ◌∷◌, ◌++◌,
  map, Str, codes, decimal, Result, ok, err,
}
use rosrust_async.Base.Dict.{lookup, contains}
use rosrust_async.Xmlrpc.Samples.{sample_dxr, packed, unpacked, unpack-pack, unpacked-packed}
use rosrust_async.Xmlrpc.Protocol.{Response, fault, method, malformed}
use rosrust_async.Xmlrpc.Slave
use rosrust_async.Node.Publisher.{Publication}
use rosrust_async.Node.Subscriber.{SubscriberActorState}
use rosrust_async.Node.Api.{Params, NodeState}
use rosrust_async.Node.Api.Server.{Reply, fault_reply, method_reply, read_reply, Xml}
use rosrust_async.Node.Api.Handlers.{build_router}
use rosrust_async.Node.Api.Calls.{call_node, direct, call_node-direct, publisher_update-mailbox}

abbrev pair : List Str → Result Str (Str × Str)
pair (a ∷ b ∷ []) = ok (a, b)
pair _ = err (codes "two arguments")

abbrev one : List Str → Result Str Str
one (a ∷ []) = ok a
one _ = err (codes "one argument")

abbrev triple : List Str → Result Str (Str × Str × Str)
triple (a ∷ b ∷ c ∷ []) = ok (a, b, c)
triple _ = err (codes "three arguments")

abbrev with_texts : List Str → Result Str (Str × Str × List Str)
with_texts (a ∷ b ∷ c ∷ []) = ok (a, b, unpacked c)
with_texts _ = err (codes "three arguments")

abbrev with_lists : List Str → Result Str (Str × Str × List (List Str))
with_lists (a ∷ b ∷ c ∷ []) = ok (a, b, map unpacked (unpacked c))
with_lists _ = err (codes "three arguments")

abbrev sample_params : Params sample_dxr
sample_params = record {
  caller = one;
  caller_text = pair;
  caller_text_value = triple;
  caller_text_texts = with_texts;
  caller_text_texts-from_texts = λ a b ts. rw (unpack-pack ts) refl;
  caller_text_lists = with_lists;
  caller_text_lists-from_lists = λ a b ls. rw (unpacked-packed ls) refl;
}

abbrev name_first : List Str → Result (Unit {0}) (Str × List Str)
name_first [] = err tt
name_first (name ∷ values) = ok (name, values)

abbrev reply_text : Reply sample_dxr → Str
reply_text (fault_reply code msg) = 0 ∷ code ∷ msg
reply_text (method_reply value) = 1 ∷ value

abbrev text_response : Str → Response sample_dxr
text_response (zero ∷ code ∷ msg) = fault (ok (code, msg))
text_response (suc zero ∷ value) = method value
text_response _ = malformed

text_response-reply_text :
    (reply : Reply sample_dxr) → text_response (reply_text reply) ≡ read_reply reply
text_response-reply_text (fault_reply code msg) = refl
text_response-reply_text (method_reply value) = refl

abbrev text_of : Result (Unit {0}) Str → Str
text_of (ok text) = text
text_of (err e) = []

abbrev sample_xml : Xml sample_dxr
sample_xml = record {
  XmlError = Unit {0};
  show_xml = λ e. codes "malformed";
  call_text = λ name values. packed (name ∷ values);
  deserialize_call = λ text. name_first (unpacked text);
  deserialize_call-call_text = λ name values. ap name_first (unpack-pack (name ∷ values));
  serialize_xml = λ reply. ok (reply_text reply);
  deserialize_response = text_response;
  deserialize_response-serialize_xml = λ reply text e.
      subst (λ t. text_response t ≡ read_reply reply) (ap text_of e)
        (text_response-reply_text reply);
}

abbrev publication : Publication
publication = record {
  topic = record {
    name = codes "/t";
    spec = record { md5sum = codes "*"; msg_type = codes "p/T"; msg_definition = codes "x" };
  };
  address = (codes "127.0.0.1", 40001);
  data_tx = 0;
  header = record {
    caller_id = codes "/a";
    topic = codes "/t";
    md5sum = codes "*";
    msg_type = codes "p/T";
    msg_definition = codes "x";
    latching = false;
  };
  header_bytes = [];
  tcp_nodelay = false;
}

abbrev subscriber_actor : SubscriberActorState
subscriber_actor = record { node_name = codes "/a"; subscriptions = []; guards = [] }

abbrev node : NodeState sample_dxr
node = record {
  master_url = codes "http://m";
  hostname = codes "host";
  pid = 7;
  shutdown_reason = none;
  pub_actor = some (record { publications = (codes "/t", (0, publication)) ∷ []; guards = [] });
  sub_actor = some subscriber_actor;
  param_actor_runs = true;
  publisher_updates = [];
  param_updates = [];
  actor_error = codes "stopped";
}

-- The node answers a method that it does not have.
call_node-direct_example :
    call_node sample_params sample_xml decimal (codes "getName") (codes "/b" ∷ []) node
    ≡ direct sample_params sample_xml decimal
        (codes "getName")
        (codes "/b" ∷ [])
        (lookup (codes "getName") (build_router sample_params))
        node
call_node-direct_example =
    call_node-direct sample_params sample_xml decimal (codes "getName") (codes "/b" ∷ []) node
      (λ reply. (reply_text reply, refl))

publisher_update-mailbox_example :
    (Slave.publisher_update
      (call_node sample_params sample_xml decimal)
      (codes "/m")
      (codes "/t")
      (codes "u" ∷ codes "u" ∷ [])
      node).1
    ≡ record node { publisher_updates = (codes "/t", codes "u" ∷ []) ∷ [] }
unfolding rosrust_async.Base.Dict.add rosrust_async.Base.str_eq
publisher_update-mailbox_example =
    publisher_update-mailbox sample_params sample_xml decimal (codes "/m") (codes "/t")
      (codes "u" ∷ codes "u" ∷ []) node subscriber_actor (λ reply. (reply_text reply, refl)) refl
