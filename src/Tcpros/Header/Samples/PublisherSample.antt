-- ===== src/Tcpros/Header/Samples/PublisherSample.antt =====
-- The visitor of `PublisherHeader`, and that it is what serde's derive promises.
use rosrust_async.Base.{
  ◌≡◌, refl, true, false, none, some, List, [], ◌∷◌, Str, codes, str_eq, arith, Result, ok, ◌>>=◌,
  IsErr, bind-IsErr, All,
}
use rosrust_async.Base.Dict.{lookup, insert}
use rosrust_async.Tcpros.Header.Defs.{HeaderError, PublisherHeader, publisher_fields}
use rosrust_async.Tcpros.Header.Visit.{Visitor}
use rosrust_async.Tcpros.Header.Wire.{pairs, collect}
use rosrust_async.Tcpros.Header.Derive.{Derives}
use rosrust_async.Tcpros.Header.Samples.{
  Table, Seen, seed_of, keep, struct_visitor, get_text, get_flag, default_callerid, collect-missing,
  get_text-missing, one_of,
}

publisher_table : Table
publisher_table =
    (codes "callerid", false)
    ∷ (codes "topic", false)
    ∷ (codes "md5sum", false)
    ∷ (codes "type", false)
    ∷ (codes "message_definition", false)
    ∷ (codes "latching", true)
    ∷ []

build_publisher : Seen → Result HeaderError PublisherHeader
unfolding get_text get_flag default_callerid
build_publisher seen = do
  caller_id ← get_text (codes "callerid") seen (some default_callerid)
  topic ← get_text (codes "topic") seen none
  md5sum ← get_text (codes "md5sum") seen none
  msg_type ← get_text (codes "type") seen none
  msg_definition ← get_text (codes "message_definition") seen (some [])
  latching ← get_flag (codes "latching") seen (some false)
  ok (record {
    caller_id = caller_id;
    topic = topic;
    md5sum = md5sum;
    msg_type = msg_type;
    msg_definition = msg_definition;
    latching = latching;
  })

unfoldable pub publisher_visitor : Visitor PublisherHeader
unfolding build_publisher publisher_table seed_of keep
publisher_visitor = struct_visitor publisher_table build_publisher

abbrev pub publisher_required : List Str
publisher_required = codes "topic" ∷ codes "md5sum" ∷ codes "type" ∷ []

publisher_reads_back :
    (h : PublisherHeader)
    → collect publisher_visitor publisher_visitor.start (pairs (publisher_fields h)) ≡ ok h
unfolding publisher_visitor publisher_fields collect lookup insert str_eq
publisher_reads_back h = ground arith

publisher_missing :
    (seen : Seen)
    → All (λ key. lookup key seen ≡ none → IsErr (build_publisher seen)) publisher_required
unfolding build_publisher
publisher_missing seen =
    let caller_id = get_text (codes "callerid") seen (some default_callerid) in
    let topic = get_text (codes "topic") seen none in
    let md5sum = get_text (codes "md5sum") seen none in
    (
      λ e. bind-IsErr caller_id _ λ _. rw (get_text-missing (codes "topic") seen e) tt,
      (
        λ e.
            bind-IsErr caller_id _
              λ _. bind-IsErr topic _ λ _. rw (get_text-missing (codes "md5sum") seen e) tt,
        (
          λ e. bind-IsErr caller_id _ λ _.
              bind-IsErr topic _
                λ _. bind-IsErr md5sum _ λ _. rw (get_text-missing (codes "type") seen e) tt,
          tt,
        ),
      ),
    )

pub publisher_Derives : Derives publisher_fields publisher_required publisher_visitor
unfolding publisher_visitor lookup
publisher_Derives = record {
  reads_back = publisher_reads_back;
  missing = λ kvs key required absent.
      collect-missing publisher_table build_publisher key
        (λ seen.
          one_of (λ k. lookup k seen ≡ none → IsErr (build_publisher seen)) key publisher_required
            (publisher_missing seen) required)
        kvs [] absent refl;
}
