-- ===== src/Tcpros/Header/Samples/ProbeSample.antt =====
-- The visitor of `ProbeRequestHeader`, and that it is what serde's derive promises.
use rosrust_async.Base.{
  ◌≡◌, refl, true, false, none, List, [], ◌∷◌, Str, codes, str_eq, arith, Result, ok, ◌>>=◌, IsErr,
  bind-IsErr, All,
}
use rosrust_async.Base.Dict.{lookup, insert}
use rosrust_async.Tcpros.Header.Defs.{HeaderError, ProbeRequestHeader, probe_request_fields}
use rosrust_async.Tcpros.Header.Visit.{Visitor}
use rosrust_async.Tcpros.Header.Wire.{pairs, collect}
use rosrust_async.Tcpros.Header.Derive.{Derives}
use rosrust_async.Tcpros.Header.Samples.{
  Table, Seen, seed_of, keep, struct_visitor, get_text, get_flag, collect-missing, get_text-missing,
  one_of,
}

probe_table : Table
probe_table =
    (codes "callerid", false)
    ∷ (codes "service", false)
    ∷ (codes "md5sum", false)
    ∷ (codes "probe", true)
    ∷ []

build_probe : Seen → Result HeaderError ProbeRequestHeader
unfolding get_text get_flag
build_probe seen = do
  caller_id ← get_text (codes "callerid") seen none
  service ← get_text (codes "service") seen none
  md5sum ← get_text (codes "md5sum") seen none
  probe ← get_flag (codes "probe") seen none
  ok (record { caller_id = caller_id; service = service; md5sum = md5sum; probe = probe })

unfoldable pub probe_visitor : Visitor ProbeRequestHeader
unfolding build_probe probe_table seed_of keep
probe_visitor = struct_visitor probe_table build_probe

abbrev pub probe_required : List Str
probe_required = codes "callerid" ∷ codes "service" ∷ codes "md5sum" ∷ []

probe_reads_back :
    (h : ProbeRequestHeader)
    → collect probe_visitor probe_visitor.start (pairs (probe_request_fields h)) ≡ ok h
unfolding probe_visitor probe_request_fields collect lookup insert str_eq
probe_reads_back h = ground arith

probe_missing :
    (seen : Seen) → All (λ key. lookup key seen ≡ none → IsErr (build_probe seen)) probe_required
unfolding build_probe
probe_missing seen =
    let caller_id = get_text (codes "callerid") seen none in
    let service = get_text (codes "service") seen none in
    (
      λ e. rw (get_text-missing (codes "callerid") seen e) tt,
      (
        λ e. bind-IsErr caller_id _ λ _. rw (get_text-missing (codes "service") seen e) tt,
        (
          λ e.
              bind-IsErr caller_id _
                λ _. bind-IsErr service _ λ _. rw (get_text-missing (codes "md5sum") seen e) tt,
          tt,
        ),
      ),
    )

pub probe_Derives : Derives probe_request_fields probe_required probe_visitor
unfolding probe_visitor lookup
probe_Derives = record {
  reads_back = probe_reads_back;
  missing = λ kvs key required absent.
      collect-missing probe_table build_probe key
        (λ seen.
          one_of (λ k. lookup k seen ≡ none → IsErr (build_probe seen)) key probe_required
            (probe_missing seen) required)
        kvs [] absent refl;
}
