-- ===== src/Tcpros/ServiceClient/Calls.antt =====
-- The calls over a connection that is kept: `handle_rpc` and `rpc_task` of
-- rosrust-async/src/tcpros/service/client.rs, against those of server.rs.
use rosrust_async.Base.{
  ◌≡◌, refl, true, false, Bool, some, List, [], ◌∷◌, ◌++◌, Str, All, Result, ok, err, IsErr,
  append_assoc, append-nil,
}
use rosrust_async.Tcpros.Utf8.{is_utf8}
use rosrust_async.Tcpros.Bytes.{frame, read_tcpros_frame-frame, IoError, unexpected_eof}
use rosrust_async.Tcpros.Net.{
  Net, Connection, connection, Fits, calls, frames, write, write_all, read_u8, read_frame,
}
use rosrust_async.Tcpros.Header.Defs.{ProbeResponseHeader, ServiceServerHeader}
use rosrust_async.Tcpros.Header.Visit.{Visitor}
use rosrust_async.Tcpros.Service.{rpc_task}
use rosrust_async.Tcpros.Service.Rpc.{rounds, response_bytes, responses, persistent_calls}
use rosrust_async.Tcpros.ServiceClient as Client
use rosrust_async.Tcpros.ServiceClient.{
  Decode, ClientLinkError, io, rpc_failed, ConnectionState, ServiceClientLink, handle_rpc,
  by_status, handle_call, acquire, fresh, use_connection,
}
use rosrust_async.Xmlrpc.Dxr.{Dxr}
use rosrust_async.Xmlrpc.Master.{World, RosMasterClient}

-- What is relied on of rosrust's encoding of a text: it is a frame, which is decoded to the text.
pub record Texts (encode : Str → Str) (decode : Decode) : Type 0 where
  pub encode_frame : (t : Str) → encode t ≡ frame t
  pub decode_frame : (t : Str) → is_utf8 t ≡ true → Fits t → decode (frame t) ≡ ok t

-- What a callback may give: a message with its length in front, or the text of an error.
abbrev pub IsAnswer : Result Str Str → Type 0
IsAnswer (ok response) = (body : Str) × (response ≡ frame body) × Fits body
IsAnswer (err e) = (is_utf8 e ≡ true) × Fits e

module _ (dxr : Dxr) {W : Type 0} (net : Net W) {encode : Str → Str} {decode : Decode}
    (texts : Texts encode decode) (callback : Str → Result Str Str) where
  -- What the caller gets for the callback's result.
  abbrev pub outcome : Result Str Str → Result (ClientLinkError dxr net) Str
  outcome (ok response) = ok response
  outcome (err e) = err (rpc_failed e)

  abbrev pub outcomes : List Str → List (Result (ClientLinkError dxr net) Str)
  outcomes [] = []
  outcomes (request ∷ rest) = outcome (callback (frame request)) ∷ outcomes rest

  handle_rpc-response_bytes :
      (data_ rest sent : Str) (r : Result Str Str)
      → IsAnswer r
      → handle_rpc dxr net decode data_ (connection (response_bytes callback encode r ++ rest) sent)
        ≡ (outcome r, connection rest (sent ++ data_))
  unfolding handle_rpc by_status write write_all read_u8 read_frame
  handle_rpc-response_bytes data_ rest sent (ok response) (body, e, fits) =
      rw (e, read_tcpros_frame-frame body rest fits, read_frame) refl
  handle_rpc-response_bytes data_ rest sent (err e) (utf8, fits) =
      rw
        (
          texts.encode_frame e,
          read_tcpros_frame-frame e rest fits,
          read_frame,
          texts.decode_frame e utf8 fits,
        )
        refl

abbrev pub over : ConnectionState → Connection → ConnectionState
over state c = record state { tcp_stream = c }

module _ {dxr : Dxr} (world : World dxr) (net : Net world.W) (master : RosMasterClient)
    (probe_visitor : Visitor ProbeResponseHeader) (server_visitor : Visitor ServiceServerHeader)
    (decode : Decode) where
  open world use {W}

  handle_call-broken :
      (link : ServiceClientLink) (data_ : Str) (state : ConnectionState) (w : W)
      → link.persistent ≡ true
      → state.tcp_stream.incoming ≡ []
      → (e : ClientLinkError dxr net) × (state' : ConnectionState) × (handle_call world net master
            probe_visitor server_visitor decode link data_
            (some state, w)
          ≡ (err e, (some state', w)))
        × (state'.tcp_stream.incoming ≡ [])
  unfolding handle_call acquire use_connection handle_rpc by_status write write_all read_u8
  handle_call-broken link data_ state w keep ended = broken state.tcp_stream.open_end refl
    where
      broken :
          (b : Bool)
          → state.tcp_stream.open_end ≡ b
          → (e : ClientLinkError dxr net) × (state' : ConnectionState) × (handle_call world net
                master probe_visitor server_visitor decode link data_
                (some state, w)
              ≡ (err e, (some state', w)))
            × (state'.tcp_stream.incoming ≡ [])
      broken true open_end = (
        io unexpected_eof,
        over state (record state.tcp_stream { sent = state.tcp_stream.sent ++ data_ }),
        rw (open_end, ended, keep) refl,
        ended,
      )
      broken false shut = (io IoError.other, state, rw (shut, keep) refl, ended)

  -- A persistent client that keeps a connection on which nothing more comes answers every further
  -- call with an error, and never makes another connection: the world stays as it is.
  pub rpc_task-broken :
      (link : ServiceClientLink) (calls' : List Str) (state : ConnectionState) (w : W)
      → link.persistent ≡ true
      → state.tcp_stream.incoming ≡ []
      → All IsErr
          (Client.rpc_task world net master probe_visitor server_visitor decode link calls'
            (some state, w)).0
        × ((Client.rpc_task world net master probe_visitor server_visitor decode link calls'
              (some state, w)).1.1
            ≡ w)
  unfolding Client.rpc_task
  rpc_task-broken link [] state w keep ended = (tt, refl)
  rpc_task-broken link (data_ ∷ rest) state w keep ended =
      let (e, state', failed, ended') = handle_call-broken link data_ state w keep ended in
      let (all, same) = rpc_task-broken link rest state' w keep ended' in
      rw (failed) ((tt, all), same)

module _ {dxr : Dxr} (world : World dxr) (net : Net world.W) (master : RosMasterClient)
    (probe_visitor : Visitor ProbeResponseHeader) (server_visitor : Visitor ServiceServerHeader)
    {encode : Str → Str} {decode : Decode} (texts : Texts encode decode)
    (callback : Str → Result Str Str) where
  open world use {W}

  handle_call-served :
      (link : ServiceClientLink) (state : ConnectionState) (w : W) (request rest sent : Str)
      → link.persistent ≡ true
      → IsAnswer (callback (frame request))
      → handle_call world net master probe_visitor server_visitor decode link (frame request) (
        some (
            over state (
              connection (response_bytes callback encode (callback (frame request)) ++ rest) sent)),
        w,
      )
        ≡ (
          outcome dxr net texts callback (callback (frame request)),
          (some (over state (connection rest (sent ++ frame request))), w),
        )
  unfolding handle_call acquire use_connection
  handle_call-served link state w request rest sent keep answer =
      rw
        (
          keep,
          handle_rpc-response_bytes dxr net texts callback (frame request) rest sent
              (callback (frame request)) answer,
        )
        refl

  rpc_task-served :
      (link : ServiceClientLink) (state : ConnectionState) (w : W) (requests : List Str)
      (rest sent : Str)
      → link.persistent ≡ true
      → All (λ request. IsAnswer (callback (frame request))) requests
      → Client.rpc_task world net master probe_visitor server_visitor decode link
          (frames requests)
          (some (over state (connection (responses callback encode requests ++ rest) sent)), w)
        ≡ (
          outcomes dxr net texts callback requests,
          (some (over state (connection rest (sent ++ calls requests))), w),
        )
  unfolding Client.rpc_task
  rpc_task-served link state w [] rest sent keep answers = rw (append-nil sent) refl
  rpc_task-served link state w (request ∷ requests) rest sent keep (answer, answers) =
      rw
        (
          append_assoc (response_bytes callback encode (callback (frame request)))
              (responses callback encode requests) rest,
          handle_call-served link state w request (responses callback encode requests ++ rest) sent
              keep answer,
          rpc_task-served link state w requests rest (sent ++ frame request) keep answers,
          append_assoc sent (frame request) (calls requests),
        )
        refl

  -- A persistent client and a persistent server, joined: for requests that fit and a callback that
  -- answers each with a framed message or a text, what the client sends for them is what the server
  -- reads, what the server sends for them is what the client reads, and each caller gets the answer
  -- of the callback to its own request, a message or the error with the text. The client makes no
  -- other call and keeps the connection, on which nothing is left over.
  pub rpc_task-rpc_task :
      (link : ServiceClientLink) (state : ConnectionState) (w : W) (requests : List Str)
      → link.persistent ≡ true
      → All Fits requests
      → All (λ request. IsAnswer (callback (frame request))) requests
      → (Client.rpc_task world net master probe_visitor server_visitor decode link
            (frames requests)
            (some (over state (connection (responses callback encode requests) [])), w)
          ≡ (
            outcomes dxr net texts callback requests,
            (some (over state (connection [] (calls requests))), w),
          ))
        × (rpc_task callback encode (rounds requests) true (connection (calls requests) [])
            ≡ ok (connection [] (responses callback encode requests)))
  rpc_task-rpc_task link state w requests keep fits answers = (
    rw (append-nil (responses callback encode requests)) at
        (rpc_task-served link state w requests [] [] keep answers),
    rw (append-nil (calls requests)) at (persistent_calls callback encode requests [] [] fits),
  )
