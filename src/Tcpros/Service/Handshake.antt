-- ===== src/Tcpros/Service/Handshake.antt =====
-- How a connection to a service starts: `handle_request` of
-- rosrust-async/src/tcpros/service/server.rs, with the headers as a peer sends them.
use rosrust_async.Base.{
  str_eq, Result-cases, inl, inr, subst, sym, ◌≡◌, refl, true, List, [], ◌++◌, Str, codes, Result,
  ok, ◌>>=◌, map_err, IsErr, arith, append-nil, ◌∙◌,
}
use rosrust_async.Base.Dict.{lookup, contains}
use rosrust_async.Tcpros.Bytes.{frame, read_tcpros_frame-frame}
use rosrust_async.Tcpros.Spec.{Service}
use rosrust_async.Tcpros.Header.Defs.{
  HeaderError, Fields, ServiceClientHeader, ProbeRequestHeader, service_client_fields,
  probe_request_fields,
}
use rosrust_async.Tcpros.Header.Ser.{to_bytes}
use rosrust_async.Tcpros.Header.Visit.{Visitor, from_bytes}
use rosrust_async.Tcpros.Header.Wire.{wire, pairs, collect}
use rosrust_async.Tcpros.Header.Derive.{Derives, IsHeader}
use rosrust_async.Tcpros.Header.Parse.{from_bytes-wire}
use rosrust_async.Tcpros.Header.Compat.{validate_client_compatibility}
use rosrust_async.Tcpros.Header.RoundTrip.{to_bytes-wire, from_bytes-to_bytes}
use rosrust_async.Tcpros.Service.{
  incompatible, probed, spawned, request_kind, respond, handle_request, client_handshake, probe,
}
use rosrust_async.Tcpros.Net.{connection, write_all}

from_bytes-pairs :
    {H : Type 0} (v : Visitor H) (fields : Fields)
    → IsHeader fields
    → from_bytes v (frame (wire (pairs fields))) ≡ collect v v.start (pairs fields)
from_bytes-pairs v fields w = rw (append-nil (wire (pairs fields))) at (
    from_bytes-wire v (pairs fields) [] w.well_formed (omega arith)
      (rw (append-nil (wire (pairs fields))) w.fits))

sent_as : {x : Result HeaderError Str} {a b : Str} → x ≡ ok a → x ≡ ok b → a ≡ b
sent_as h e = cc

module _ {client_required : List Str} {client_visitor : Visitor ServiceClientHeader}
    (probe_visitor : Visitor ProbeRequestHeader)
    (dc : Derives service_client_fields client_required client_visitor) where
  request_kind_client :
      (bytes : Str) (h : ServiceClientHeader)
      → from_bytes client_visitor bytes ≡ ok h
      → request_kind client_visitor probe_visitor bytes ≡ ok (client_handshake h)
  unfolding request_kind
  request_kind_client bytes h read = rw (read, request_kind) refl

  request_kind_probe :
      (bytes : Str) (p : ProbeRequestHeader)
      → IsErr (from_bytes client_visitor bytes)
      → from_bytes probe_visitor bytes ≡ ok p
      → request_kind client_visitor probe_visitor bytes ≡ ok (probe p)
  unfolding request_kind
  request_kind_probe bytes p refused read = elim (Result-cases (from_bytes client_visitor bytes)) [
    | inl (h, e) ↦ absurd (subst IsErr e refused)
    | inr (error, e) ↦ rw (e, read, request_kind) refl
  ]

  -- What a frame with a header's fields comes to.
  handle_request-frame :
      (fields : Fields) (bytes rest sent : Str) (service : Service) (pb sb : Str)
      → IsHeader fields
      → to_bytes fields ≡ ok bytes
      → handle_request client_visitor probe_visitor service pb sb (connection (bytes ++ rest) sent)
        ≡ (request_kind client_visitor probe_visitor bytes
            >>= respond client_visitor probe_visitor service pb sb (connection rest sent))
  unfolding handle_request
  handle_request-frame fields bytes rest sent service pb sb w e =
      let body = wire (pairs fields) in
      let same : frame body ≡ bytes = sent_as (to_bytes-wire fields w.supported) e in
      subst
        (λ b.
          handle_request client_visitor probe_visitor service pb sb (connection (b ++ rest) sent)
          ≡ (request_kind client_visitor probe_visitor b
              >>= respond client_visitor probe_visitor service pb sb (connection rest sent)))
        same (rw (read_tcpros_frame-frame body rest w.fits) refl)

  -- A client's header arrives whole, from a peer that takes the answer: if the client is
  -- compatible with the service it is sent the server's header, and a task is spawned for what
  -- follows; else the result is the disagreement and nothing is sent.
  pub handle_request_client :
      (h : ServiceClientHeader) (bytes rest sent : Str) (service : Service) (pb sb : Str)
      → IsHeader (service_client_fields h)
      → to_bytes (service_client_fields h) ≡ ok bytes
      → handle_request client_visitor probe_visitor service pb sb (connection (bytes ++ rest) sent)
        ≡ (map_err incompatible (validate_client_compatibility service h) >>= λ _.
            ok (spawned h (connection rest (sent ++ sb))))
  unfolding respond write_all
  handle_request_client h bytes rest sent service pb sb w e =
      let read : from_bytes client_visitor bytes ≡ ok h = rw e at (from_bytes-to_bytes dc h w) in
      handle_request-frame (service_client_fields h) bytes rest sent service pb sb w e
      ∙ rw (request_kind_client bytes h read) refl

  -- A probe's header arrives whole, from a peer that takes the answer, and a client's header must
  -- say its type: then the probe is sent the probe's answer, no task is spawned, and the probe is
  -- not taken for a client.
  pub handle_request_probe :
      {probe_required : List Str} (dp : Derives probe_request_fields probe_required probe_visitor)
      (p : ProbeRequestHeader) (bytes rest sent : Str) (service : Service) (pb sb : Str)
      → contains (codes "type") client_required ≡ true
      → IsHeader (probe_request_fields p)
      → to_bytes (probe_request_fields p) ≡ ok bytes
      → handle_request client_visitor probe_visitor service pb sb (connection (bytes ++ rest) sent)
        ≡ ok (probed (connection rest (sent ++ pb)))
  unfolding respond write_all
  handle_request_probe dp p bytes rest sent service pb sb needs w e =
      let fields = probe_request_fields p in
      let read : from_bytes probe_visitor bytes ≡ ok p = rw e at (from_bytes-to_bytes dp p w) in
      let refused : IsErr (from_bytes client_visitor bytes) =
        subst (λ b. IsErr (from_bytes client_visitor b))
          (sent_as (to_bytes-wire fields w.supported) e)
          (subst IsErr (sym (from_bytes-pairs client_visitor fields w)) (
            dc.missing (pairs fields) (codes "type") needs
              (unfold probe_request_fields lookup str_eq in refl))) in
      handle_request-frame fields bytes rest sent service pb sb w e
      ∙ rw (request_kind_probe bytes p refused read) refl
