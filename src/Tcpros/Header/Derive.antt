-- ===== src/Tcpros/Header/Derive.antt =====
-- What the header code relies on of serde's derive, for the structs of tcpros/header/mod.rs: a
-- visitor gives back the struct whose fields it is shown, in their order, and refuses an input that
-- lacks a field without a default.
use rosrust_async.Base.{Str, List, none, ◌≡◌, true, ok, IsErr, All, length, ◌<◌, ◌^◌}
use rosrust_async.Base.Dict.{lookup, contains}
use rosrust_async.Tcpros.Header.Defs.{Fields}
use rosrust_async.Tcpros.Header.Visit.{Visitor}
use rosrust_async.Tcpros.Header.Wire.{Pairs, pairs, wire, collect, IsField, IsSupported}

pub record Derives {H : Type 0} (fields : H → Fields) (required : List Str) (v : Visitor H)
    : Type 0 where
  pub reads_back : (h : H) → collect v v.start (pairs (fields h)) ≡ ok h
  pub missing :
      (kvs : Pairs) (key : Str)
      → contains key required ≡ true
      → lookup key kvs ≡ none
      → IsErr (collect v v.start kvs)

-- Fields that can be written: of supported types, each well-formed, and within 32 bits together.
pub record IsHeader (fields : Fields) : Type 0 where
  pub supported : All (λ f. IsSupported f.1) fields
  pub well_formed : All IsField (pairs fields)
  pub fits : length (wire (pairs fields)) < 2 ^ 32
