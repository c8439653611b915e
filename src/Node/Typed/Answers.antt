-- ===== src/Node/Typed/Answers.antt =====
-- Typed calls of a service, from the client's handle to the callback and back:
-- rosrust-async/src/node/actors/service.rs, tcpros/service/client.rs, tcpros/service/server.rs and the callback
-- of `advertise_service` in node/mod.rs, joined.
use rosrust_async.Base.{◌≡◌, refl, true, some, List, [], ◌∷◌, map, Str, All, Result, ok, err}
use rosrust_async.Tcpros.Utf8.{is_utf8}
use rosrust_async.Tcpros.Bytes.{IoError, frame}
use rosrust_async.Tcpros.Net.{Net, connection, Fits, frames, calls}
use rosrust_async.Tcpros.Header.Defs.{ProbeResponseHeader, ServiceServerHeader}
use rosrust_async.Tcpros.Header.Visit.{Visitor}
use rosrust_async.Tcpros.Service.{rpc_task}
use rosrust_async.Tcpros.Service.Rpc.{rounds, responses}
use rosrust_async.Tcpros.ServiceClient as Client
use rosrust_async.Tcpros.ServiceClient.{
  Decode, ClientLinkError, rpc_failed, ConnectionState, ServiceClientLink,
}
use rosrust_async.Tcpros.ServiceClient.Calls.{Texts, IsAnswer, over, outcomes, rpc_task-rpc_task}
use rosrust_async.Xmlrpc.Dxr.{Dxr}
use rosrust_async.Xmlrpc.Master.{World, RosMasterClient}
use rosrust_async.Node.Typed.{
  RosMsg, ServiceClientError, client_link, replied, call, call_raw, erased_callback,
}
use rosrust_async.Node.Typed.Delivery.{Framed, bodies}

-- What a typed callback may give: a message that fits 32 bits, or the text of an error.
abbrev pub IsReply : {Resp : Type 0} {resp : RosMsg Resp} → Framed resp → Result Str Resp → Type 0
IsReply framed (ok response) = Fits (framed.body response)
IsReply framed (err e) = (is_utf8 e ≡ true) × Fits e

-- The callers of some requests, with what the link's task replies to each.
abbrev pub call_all :
    {LinkError Req Resp : Type 0}
    → RosMsg Req
    → RosMsg Resp
    → List Req
    → List (Result LinkError Str)
    → List (Result (ServiceClientError LinkError) Resp)
call_all req resp [] replies = []
call_all req resp (q ∷ qs) [] = []
call_all req resp (q ∷ qs) (r ∷ replies) =
    call req resp (λ _. replied r) q ∷ call_all req resp qs replies

module _ {Req Resp : Type 0} {req : RosMsg Req} {resp : RosMsg Resp} (req_framed : Framed req)
    (resp_framed : Framed resp) (text : IoError → Str) (callback : Req → Result Str Resp)
    (dxr : Dxr) {W : Type 0} (net : Net W) {encode : Str → Str} {decode : Decode}
    (texts : Texts encode decode) where
  -- What the caller of a request gets.
  abbrev pub answer : Result Str Resp → Result (ServiceClientError (ClientLinkError dxr net)) Resp
  answer (ok response) = ok response
  answer (err e) = err (client_link (rpc_failed e))

  abbrev erased : Str → Result Str Str
  erased = erased_callback req resp text callback

  erased-body :
      (q : Req)
      → Fits (req_framed.body q)
      → (r : Result Str Resp) → callback q ≡ r
      → IsReply resp_framed r
      → IsAnswer (erased (frame (req_framed.body q)))
        × (call req resp
              (λ _.
                replied
                  (Client.Calls.outcome dxr net texts erased (erased (frame (req_framed.body q)))))
              q
            ≡ answer r)
  unfolding erased_callback call call_raw
  erased-body q fit (ok p) e fits =
      rw (req_framed.decode_body q fit, e, resp_framed.encode_body p)
        (
          (resp_framed.body p, refl, fits),
          rw (req_framed.encode_body q, resp_framed.decode_body p fits) refl,
        )
  erased-body q fit (err t) e fits =
      rw (req_framed.decode_body q fit, e) (fits, rw (req_framed.encode_body q) refl)

  erased-IsAnswer :
      (qs : List Req)
      → All Fits (bodies req_framed qs)
      → All (λ q. IsReply resp_framed (callback q)) qs
      → All (λ request. IsAnswer (erased (frame request))) (bodies req_framed qs)
  erased-IsAnswer [] fits replies = tt
  erased-IsAnswer (q ∷ qs) (fit, fits) (reply, replies) =
      ((erased-body q fit (callback q) refl reply).0, erased-IsAnswer qs fits replies)

  call_all-outcomes :
      (qs : List Req)
      → All Fits (bodies req_framed qs)
      → All (λ q. IsReply resp_framed (callback q)) qs
      → call_all req resp qs (outcomes dxr net texts erased (bodies req_framed qs))
        ≡ map (λ q. answer (callback q)) qs
  call_all-outcomes [] fits replies = refl
  call_all-outcomes (q ∷ qs) (fit, fits) (reply, replies) =
      rw ((erased-body q fit (callback q) refl reply).1, call_all-outcomes qs fits replies) refl

module _ {dxr : Dxr} (world : World dxr) (net : Net world.W) (master : RosMasterClient)
    (probe_visitor : Visitor ProbeResponseHeader) (server_visitor : Visitor ServiceServerHeader)
    {encode : Str → Str} {decode : Decode} (texts : Texts encode decode) where
  open world use {W}

  -- A persistent typed client and a service of a typed callback, joined, where a message is encoded
  -- as a body with its length in front and got back from it: for requests that fit 32 bits and a
  -- callback that gives each a message that fits or a UTF-8 text that fits, the client's task sends
  -- what the server's task reads and gets what that sends back; then the call of each request
  -- returns the callback's own response, or the error of the link with the callback's text, in the
  -- order of the requests.
  pub call_all-callback :
      {Req Resp : Type 0} {req : RosMsg Req} {resp : RosMsg Resp} (req_framed : Framed req)
      (resp_framed : Framed resp) (text : IoError → Str) (callback : Req → Result Str Resp)
      (link : ServiceClientLink) (state : ConnectionState) (w : W) (qs : List Req)
      → link.persistent ≡ true
      → All Fits (bodies req_framed qs)
      → All (λ q. IsReply resp_framed (callback q)) qs
      → let requests = bodies req_framed qs in
        let erased = erased_callback req resp text callback in
        let answered =
          Client.rpc_task world net master probe_visitor server_visitor decode link
            (frames requests)
            (some (over state (connection (responses erased encode requests) [])), w) in
        (call_all req resp qs answered.0
          ≡ map (λ q. answer req_framed resp_framed text callback dxr net texts (callback q)) qs)
        × (rpc_task erased encode (rounds requests) true (connection (calls requests) [])
            ≡ ok (connection [] (responses erased encode requests)))
        × (answered.1 ≡ (some (over state (connection [] (calls requests))), w))
  call_all-callback {req = req} {resp = resp} req_framed resp_framed text callback link state w qs
        keep fits replies =
      let erased = erased_callback req resp text callback in
      let (client, server) =
        rpc_task-rpc_task world net master probe_visitor server_visitor texts erased link state w
          (bodies req_framed qs) keep fits
          (erased-IsAnswer req_framed resp_framed text callback dxr net texts qs fits replies) in
      rw client (
        call_all-outcomes req_framed resp_framed text callback dxr net texts qs fits replies,
        server,
        refl,
      )
