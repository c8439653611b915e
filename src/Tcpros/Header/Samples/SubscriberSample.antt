-- ===== src/Tcpros/Header/Samples/SubscriberSample.antt =====
-- The visitor of `SubscriberHeader`, and that it is what serde's derive promises.
use rosrust_async.Base.{
  ◌≡◌, refl, true, false, none, some, List, [], ◌∷◌, Str, codes, str_eq, arith, Result, ok, ◌>>=◌,
  IsErr, bind-IsErr, All,
}
use rosrust_async.Base.Dict.{lookup, insert}
use rosrust_async.Tcpros.Header.Defs.{HeaderError, SubscriberHeader, subscriber_fields}
use rosrust_async.Tcpros.Header.Visit.{Visitor}
use rosrust_async.Tcpros.Header.Wire.{pairs, collect}
use rosrust_async.Tcpros.Header.Derive.{Derives}
use rosrust_async.Tcpros.Header.Samples.{
  Table, Seen, seed_of, keep, struct_visitor, get_text, get_flag, collect-missing, get_text-missing,
  one_of,
}

subscriber_table : Table
subscriber_table =
    (codes "callerid", false)
    ∷ (codes "topic", false)
    ∷ (codes "md5sum", false)
    ∷ (codes "type", false)
    ∷ (codes "message_definition", false)
    ∷ (codes "tcp_nodelay", true)
    ∷ []

build_subscriber : Seen → Result HeaderError SubscriberHeader
unfolding get_text get_flag
build_subscriber seen = do
  caller_id ← get_text (codes "callerid") seen none
  topic ← get_text (codes "topic") seen none
  md5sum ← get_text (codes "md5sum") seen none
  msg_type ← get_text (codes "type") seen none
  msg_definition ← get_text (codes "message_definition") seen (some [])
  tcp_nodelay ← get_flag (codes "tcp_nodelay") seen (some false)
  ok (record {
    caller_id = caller_id;
    topic = topic;
    md5sum = md5sum;
    msg_type = msg_type;
    msg_definition = msg_definition;
    tcp_nodelay = tcp_nodelay;
  })

unfoldable pub subscriber_visitor : Visitor SubscriberHeader
unfolding build_subscriber subscriber_table seed_of keep
subscriber_visitor = struct_visitor subscriber_table build_subscriber

abbrev pub subscriber_required : List Str
subscriber_required = codes "callerid" ∷ codes "topic" ∷ codes "md5sum" ∷ codes "type" ∷ []

subscriber_reads_back :
    (h : SubscriberHeader)
    → collect subscriber_visitor subscriber_visitor.start (pairs (subscriber_fields h)) ≡ ok h
unfolding subscriber_visitor subscriber_fields collect lookup insert str_eq
subscriber_reads_back h = ground arith

subscriber_missing :
    (seen : Seen)
    → All (λ key. lookup key seen ≡ none → IsErr (build_subscriber seen)) subscriber_required
unfolding build_subscriber
subscriber_missing seen =
    let caller_id = get_text (codes "callerid") seen none in
    let topic = get_text (codes "topic") seen none in
    let md5sum = get_text (codes "md5sum") seen none in
    (
      λ e. rw (get_text-missing (codes "callerid") seen e) tt,
      (
        λ e. bind-IsErr caller_id _ λ _. rw (get_text-missing (codes "topic") seen e) tt,
        (
          λ e.
              bind-IsErr caller_id _
                λ _. bind-IsErr topic _ λ _. rw (get_text-missing (codes "md5sum") seen e) tt,
          (
            λ e. bind-IsErr caller_id _ λ _.
                bind-IsErr topic _
                  λ _. bind-IsErr md5sum _ λ _. rw (get_text-missing (codes "type") seen e) tt,
            tt,
          ),
        ),
      ),
    )

pub subscriber_Derives : Derives subscriber_fields subscriber_required subscriber_visitor
unfolding subscriber_visitor lookup
subscriber_Derives = record {
  reads_back = subscriber_reads_back;
  missing = λ kvs key required absent.
      collect-missing subscriber_table build_subscriber key
        (λ seen.
          one_of (λ k. lookup k seen ≡ none → IsErr (build_subscriber seen)) key subscriber_required
            (subscriber_missing seen) required)
        kvs [] absent refl;
}
