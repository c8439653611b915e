-- ===== src/Tcpros/Header/Samples.antt =====
-- Visitors as serde's derive documents them, for four of the headers (the children): a field is kept by its name,
-- an unknown one is ignored, a second of one name and a missing one without default are errors.
-- They show that what Derive asks for can be met.
pub mod FieldTest
pub mod PublisherSample
pub mod SubscriberSample
pub mod ClientSample
pub mod ProbeSample
use rosrust_async.Base.{
  ◌≡◌, refl, Bool, true, false, Option, none, some, List, [], ◌∷◌, ◌++◌, Str, codes, str_eq, arith,
  if◌then◌else◌, Result, ok, err, ◌>>=◌, IsErr, bind-IsErr, All, ◌≢◌, length, ◌<◌, ◌^◌, str_eq_iff,
  Bool-cases, inl, inr, subst,
}
use rosrust_async.Base.Dict.{lookup, insert, contains, lookup-insert}
use rosrust_async.Tcpros.Utf8.{is_utf8}
use rosrust_async.Tcpros.Bytes.{write_u32}
use rosrust_async.Tcpros.Header.Defs.{
  HeaderError, serde, PublisherHeader, ServiceClientHeader, ProbeRequestHeader, publisher_fields,
  service_client_fields, probe_request_fields, Fields,
}
use rosrust_async.Tcpros.Header.De.{Seed, Value}
use rosrust_async.Tcpros.Header.Visit.{Visitor}
use rosrust_async.Tcpros.Header.Wire.{Pairs, pairs, wire, collect, read_value, IsField}
use rosrust_async.Tcpros.Header.Derive.{Derives, IsHeader}

-- The names of a struct's fields, with `true` for a Boolean one.
abbrev Table : Type 0
Table = List (Str × Bool)

abbrev Seen : Type 0
Seen = List (Str × Value)

seed_of : Option Bool → Option Value → Result HeaderError Seed
seed_of none seen = ok Seed.ignored_any
seed_of (some is_flag) (some v) = err (serde (codes "duplicate field"))
seed_of (some is_flag) none = ok (if is_flag then Seed.bool else Seed.string)

keep : Option Bool → Str → Value → Seen → Seen
keep none key value seen = seen
keep (some is_flag) key value seen = insert key value seen

abbrev struct_visitor : {H : Type 0} → Table → (Seen → Result HeaderError H) → Visitor H
struct_visitor table build = record {
  State = Seen;
  start = [];
  seed = λ seen key. seed_of (lookup key table) (lookup key seen);
  accept = λ seen key value. keep (lookup key table) key value seen;
  finish = build;
}

abbrev missing_field : Str → HeaderError
missing_field key = serde (codes "missing field " ++ key)

get_text : Str → Seen → Option Str → Result HeaderError Str
get_text key seen fallback = elim (lookup key seen) [
  | some (Value.text v) ↦ ok v
  | some (Value.flag b) ↦ err (serde key)
  | none ↦ elim fallback [ none ↦ err (missing_field key) | some v ↦ ok v ]
]

get_flag : Str → Seen → Option Bool → Result HeaderError Bool
get_flag key seen fallback = elim (lookup key seen) [
  | some (Value.flag b) ↦ ok b
  | some (Value.text v) ↦ err (serde key)
  | none ↦ elim fallback [ none ↦ err (missing_field key) | some v ↦ ok v ]
]

default_callerid : Str
default_callerid = codes "unknown callerid"

lookup-keep :
    (o : Option Bool) (j k : Str) (value : Value) (seen : Seen)
    → str_eq j k ≡ false
    → lookup k seen ≡ none
    → lookup k (keep o j value seen) ≡ none
unfolding keep
lookup-keep none j k value seen h e = e
lookup-keep (some is_flag) j k value seen h e = rw (lookup-insert j k value seen, h) e

-- A key that the input lacks is not seen at the end, whatever the other fields are.
collect-missing :
    {H : Type 0} (table : Table) (build : Seen → Result HeaderError H) (key : Str)
    → ((seen : Seen) → lookup key seen ≡ none → IsErr (build seen))
    → (kvs : Pairs) (seen : Seen) → lookup key kvs ≡ none
    → lookup key seen ≡ none
    → IsErr (collect (struct_visitor table build) seen kvs)
unfolding collect lookup
collect-missing table build key fails [] seen e h = fails seen h
collect-missing table build key fails ((j, raw) ∷ rest) seen e h =
    bind-IsErr (seed_of (lookup j table) (lookup j seen)) _ λ wanted.
      bind-IsErr (read_value wanted raw) _ λ value.
        collect-missing table build key fails rest (keep (lookup j table) j value seen)
          (ground arith) (lookup-keep (lookup j table) j key value seen (ground arith) h)

get_text-missing :
    (key : Str) (seen : Seen)
    → lookup key seen ≡ none
    → get_text key seen none ≡ err (missing_field key)
unfolding get_text
get_text-missing key seen e = rw (e, get_text)

-- A key of a list is the one that is looked for.
one_of :
    (P : Str → Type 0) (key : Str) (keys : List Str) → All P keys → contains key keys ≡ true → P key
unfolding contains
one_of P key [] h e = cc
one_of P key (k ∷ keys) h e = elim (Bool-cases (str_eq k key)) [
  | inl same ↦ subst P ((str_eq_iff k key).0 same) h.0
  | inr other ↦ one_of P key keys h.1 (ground arith)
]
