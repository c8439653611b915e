-- ===== src/Tcpros/Publication/Handshake.antt =====
-- Both ends of a topic's handshake: setup_connection of rosrust-async/src/tcpros/publication.rs and
-- add_publisher of tcpros/subscription.rs.
use rosrust_async.Base.{
  ◌≡◌, refl, Bool, true, false, ◌||◌, some, Option, List, [], ◌++◌, append-nil, Str, Result,
  Result-cases, inl, inr, ok, err,
}
use rosrust_async.Base.Dict.{contains, add}
use rosrust_async.Tcpros.Bytes.{unexpected_eof, read_tcpros_frame, read_u32}
use rosrust_async.Tcpros.Net.{Connection, connection, write, write_all}
use rosrust_async.Tcpros.Spec.{CompatibilityError}
use rosrust_async.Tcpros.Header.Defs.{
  PublisherHeader, SubscriberHeader, publisher_fields, subscriber_fields,
}
use rosrust_async.Tcpros.Header.Ser.{to_bytes}
use rosrust_async.Tcpros.Header.Visit.{Visitor, from_async_read}
use rosrust_async.Tcpros.Header.Derive.{Derives, IsHeader}
use rosrust_async.Tcpros.Header.RoundTrip.{from_async_read-to_bytes}
use rosrust_async.Tcpros.Header.Compat.{validate_pubsub_compatibility}
use rosrust_async.Tcpros.Subscription.{
  SubscriptionError, header_failure, Subscription, SubscriberTask, add_publisher,
}
use rosrust_async.Tcpros.Header.Defs as Header
use rosrust_async.Tcpros.Publication.{
  PublicationError, compatibility, read_header, set_nodelay, setup_connection,
}

-- What the publisher makes of the verdict.
abbrev pub accepted_as :
    Result CompatibilityError (Unit {0})
    → Str
    → SubscriberHeader
    → Result PublicationError SubscriberHeader × Connection
accepted_as (ok u) header_bytes h = (ok h, connection [] header_bytes)
accepted_as (err e) header_bytes h = (err (compatibility e), connection [] [])

-- What comes to the subscriber's end: what the set-up has written there, and, if it went well, behind it
-- whatever the task writes that is spawned for the subscriber.
abbrev pub answered : Result PublicationError SubscriberHeader × Connection → Str → Str
answered (ok h, c) rest = c.sent ++ rest
answered (err e, c) rest = c.sent

-- What the subscriber makes of it: where the publisher has refused, it meets the end of the stream.
abbrev pub enrolled_as :
    Result CompatibilityError (Unit {0})
    → SubscriberTask
    → Subscription
    → Result SubscriptionError (Option SubscriberTask) × Subscription
enrolled_as (ok u) t s =
    (ok (some t), record s { publisher_addrs = add t.publisher_addr s.publisher_addrs })
enrolled_as (err e) t s = (err (header_failure (Header.io unexpected_eof)), s)

module _ {subscriber_required publisher_required : List Str}
    {subscriber_visitor : Visitor SubscriberHeader} {publisher_visitor : Visitor PublisherHeader}
    (subscriber_derived : Derives subscriber_fields subscriber_required subscriber_visitor)
    (publisher_derived : Derives publisher_fields publisher_required publisher_visitor) where
  -- Options of a fresh connection can be set.
  set_nodelay-connection :
      (tcp_nodelay : Bool) (incoming sent : Str)
      → set_nodelay tcp_nodelay (connection incoming sent) ≡ (ok tt, connection incoming sent)
  unfolding set_nodelay
  set_nodelay-connection true incoming sent = refl
  set_nodelay-connection false incoming sent = refl

  published_lem :
      (s : Subscription) (h : PublisherHeader) (header_bytes : Str) (tcp_nodelay : Bool)
      → to_bytes (subscriber_fields s.header) ≡ ok s.header_bytes
      → IsHeader (subscriber_fields s.header)
      → setup_connection subscriber_visitor h header_bytes tcp_nodelay
          (connection s.header_bytes [])
        ≡ accepted_as (validate_pubsub_compatibility h s.header) header_bytes s.header
  unfolding setup_connection read_header write write_all
  published_lem s h header_bytes tcp_nodelay sub_bytes sub_fits =
      let sub_read : from_async_read subscriber_visitor s.header_bytes ≡ ok (s.header, []) =
        rw (sub_bytes, append-nil s.header_bytes) at
          (from_async_read-to_bytes subscriber_derived s.header [] sub_fits) in
      let read : read_header subscriber_visitor (connection s.header_bytes [])
          ≡ (ok s.header, connection [] []) =
        rw (read_header, sub_read) (unfold read_header in refl) in
      let set = set_nodelay-connection (tcp_nodelay || s.header.tcp_nodelay) [] [] in
      elim (Result-cases (validate_pubsub_compatibility h s.header)) [
        | inl (u, e) ↦ rw (setup_connection, read, e, set) refl
        | inr (error, e) ↦ rw (setup_connection, read, e) refl
      ]

  joined_lem :
      (s : Subscription) (h : PublisherHeader) (header_bytes rest addr : Str) (u : Unit {0})
      → to_bytes (publisher_fields h) ≡ ok header_bytes
      → IsHeader (publisher_fields h)
      → contains addr s.publisher_addrs ≡ false
      → validate_pubsub_compatibility h s.header ≡ ok u
      → add_publisher publisher_visitor addr (ok (connection (header_bytes ++ rest) [])) s
        ≡ enrolled_as
            (ok u)
            (record { publisher_addr = addr; publisher_header = h; incoming = rest })
            s
  unfolding add_publisher write_all
  joined_lem s h header_bytes rest addr u pub_bytes pub_fits new e =
      let pub_read : from_async_read publisher_visitor (header_bytes ++ rest) ≡ ok (h, rest) =
        rw (pub_bytes) at (from_async_read-to_bytes publisher_derived h rest pub_fits) in
      rw (new, pub_read, e) refl

  refused_lem :
      (s : Subscription) (addr : Str)
      → contains addr s.publisher_addrs ≡ false
      → add_publisher publisher_visitor addr (ok (connection [] [])) s
        ≡ (err (header_failure (Header.io unexpected_eof)), s)
  unfolding add_publisher write_all from_async_read read_tcpros_frame read_u32
  refused_lem s addr new = rw (new) refl

  -- A publisher that has the bytes of its header and a subscription that has those of its own, both of
  -- headers that can be written, over one connection whose options can be set: the publisher reads the
  -- subscriber's header as it is, and what it makes of it is what the check of compatibility says. Where
  -- it accepts, it writes its header; the subscriber, which has not added the publisher before, reads
  -- that header as it is, accepts it by the same check, spawns a task for what comes behind the header,
  -- whatever it is, and adds the address. Where the publisher refuses, it writes nothing, and closes:
  -- the subscriber meets the end of the stream before a header, so its error is that one and not one of
  -- compatibility, and it stays as it was.
  pub setup_connection-add_publisher :
      (s : Subscription) (h : PublisherHeader) (header_bytes rest addr : Str) (tcp_nodelay : Bool)
      → to_bytes (subscriber_fields s.header) ≡ ok s.header_bytes
      → to_bytes (publisher_fields h) ≡ ok header_bytes
      → IsHeader (subscriber_fields s.header)
      → IsHeader (publisher_fields h)
      → contains addr s.publisher_addrs ≡ false
      → let verdict = validate_pubsub_compatibility h s.header in
        let published =
          setup_connection subscriber_visitor h header_bytes tcp_nodelay
            (connection s.header_bytes []) in
        (published ≡ accepted_as verdict header_bytes s.header)
        × (add_publisher publisher_visitor addr (ok (connection (answered published rest) [])) s
            ≡ enrolled_as verdict
                (record { publisher_addr = addr; publisher_header = h; incoming = rest })
                s)
  setup_connection-add_publisher s h header_bytes rest addr tcp_nodelay sub_bytes pub_bytes sub_fits
        pub_fits new =
      let published = published_lem s h header_bytes tcp_nodelay sub_bytes sub_fits in
      (
        published,
        rw published (elim (Result-cases (validate_pubsub_compatibility h s.header)) [
          | inl (u, e) ↦ rw (e) (joined_lem s h header_bytes rest addr u pub_bytes pub_fits new e)
          | inr (error, e) ↦ rw (e) (refused_lem s addr new)
        ]),
      )
