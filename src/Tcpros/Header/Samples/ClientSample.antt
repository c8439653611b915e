-- ===== src/Tcpros/Header/Samples/ClientSample.antt =====
-- The visitor of `ServiceClientHeader`, and that it is what serde's derive promises.
use rosrust_async.Base.{
  ◌≡◌, refl, true, false, none, some, List, [], ◌∷◌, Str, codes, str_eq, arith, Result, ok, ◌>>=◌,
  IsErr, bind-IsErr, All,
}
use rosrust_async.Base.Dict.{lookup, insert}
use rosrust_async.Tcpros.Header.Defs.{HeaderError, ServiceClientHeader, service_client_fields}
use rosrust_async.Tcpros.Header.Visit.{Visitor}
use rosrust_async.Tcpros.Header.Wire.{pairs, collect}
use rosrust_async.Tcpros.Header.Derive.{Derives}
use rosrust_async.Tcpros.Header.Samples.{
  Table, Seen, seed_of, keep, struct_visitor, get_text, get_flag, default_callerid, collect-missing,
  get_text-missing, one_of,
}

client_table : Table
client_table =
    (codes "callerid", false)
    ∷ (codes "service", false)
    ∷ (codes "md5sum", false)
    ∷ (codes "type", false)
    ∷ (codes "persistent", true)
    ∷ []

build_client : Seen → Result HeaderError ServiceClientHeader
unfolding get_text get_flag default_callerid
build_client seen = do
  caller_id ← get_text (codes "callerid") seen (some default_callerid)
  service ← get_text (codes "service") seen none
  md5sum ← get_text (codes "md5sum") seen none
  msg_type ← get_text (codes "type") seen none
  persistent ← get_flag (codes "persistent") seen (some false)
  ok (record {
    caller_id = caller_id;
    service = service;
    md5sum = md5sum;
    msg_type = msg_type;
    persistent = persistent;
  })

unfoldable pub client_visitor : Visitor ServiceClientHeader
unfolding build_client client_table seed_of keep
client_visitor = struct_visitor client_table build_client

abbrev pub client_required : List Str
client_required = codes "service" ∷ codes "md5sum" ∷ codes "type" ∷ []

client_reads_back :
    (h : ServiceClientHeader)
    → collect client_visitor client_visitor.start (pairs (service_client_fields h)) ≡ ok h
unfolding client_visitor service_client_fields collect lookup insert str_eq
client_reads_back h = ground arith

client_missing :
    (seen : Seen) → All (λ key. lookup key seen ≡ none → IsErr (build_client seen)) client_required
unfolding build_client
client_missing seen =
    let caller_id = get_text (codes "callerid") seen (some default_callerid) in
    let service = get_text (codes "service") seen none in
    let md5sum = get_text (codes "md5sum") seen none in
    (
      λ e. bind-IsErr caller_id _ λ _. rw (get_text-missing (codes "service") seen e) tt,
      (
        λ e.
            bind-IsErr caller_id _
              λ _. bind-IsErr service _ λ _. rw (get_text-missing (codes "md5sum") seen e) tt,
        (
          λ e. bind-IsErr caller_id _ λ _.
              bind-IsErr service _
                λ _. bind-IsErr md5sum _ λ _. rw (get_text-missing (codes "type") seen e) tt,
          tt,
        ),
      ),
    )

pub client_Derives : Derives service_client_fields client_required client_visitor
unfolding client_visitor lookup
client_Derives = record {
  reads_back = client_reads_back;
  missing = λ kvs key required absent.
      collect-missing client_table build_client key
        (λ seen.
          one_of (λ k. lookup k seen ≡ none → IsErr (build_client seen)) key client_required
            (client_missing seen) required)
        kvs [] absent refl;
}
