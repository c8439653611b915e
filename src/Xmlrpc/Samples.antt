-- ===== src/Xmlrpc/Samples.antt =====
-- A small XML-RPC library and a small master, which show that what Dxr and World ask for can be met:
-- a value is a text, and the master keeps parameters and counts calls.
use rosrust_async.Base.{
  ℕ, zero, suc, ◌+◌, ◌≡◌, refl, Bool, true, false, Option, none, some, List, [], ◌∷◌, ◌++◌, map,
  length, take, drop, take-append_length, drop-append_length, Str, str_eq, str_eq_iff, codes,
  Result, ok, err, if◌then◌else◌,
}
use rosrust_async.Base.Dict.{lookup, insert, remove}
use rosrust_async.Base.Action.{Action}
use rosrust_async.Xmlrpc.Dxr.{Dxr}
use rosrust_async.Xmlrpc.Protocol.{server_error, invalid_request, ClientError, net, api}
use rosrust_async.Xmlrpc.Master.{World, RosMasterClient}

abbrev pub split_triple : Str → Result Str (ℕ × Str × Str)
split_triple (code ∷ n ∷ rest) = ok (code, take n rest, drop n rest)
split_triple _ = err (codes "no triple")

abbrev pub first : Str → Result Str ℕ
first [] = err (codes "no number")
first (n ∷ rest) = ok n

abbrev pub truth : Str → Result Str Bool
truth [] = err (codes "no truth value")
truth (zero ∷ rest) = ok false
truth (suc n ∷ rest) = ok true

pub split_triple-append :
    (t : ℕ × Str × Str) → split_triple (t.0 ∷ length t.1 ∷ (t.1 ++ t.2)) ≡ ok t
split_triple-append (code, msg, v) = rw (take-append_length msg v, drop-append_length msg v) refl

abbrev pub pairs_text : List (Str × Str) → Str
pairs_text [] = []
pairs_text ((k, v) ∷ rest) = length k ∷ length v ∷ (k ++ (v ++ pairs_text rest))

-- With the number of texts to come as fuel.
abbrev pub text_pairs : ℕ → Str → List (Str × Str)
text_pairs zero s = []
text_pairs (suc fuel) (n ∷ m ∷ s) =
    (take n s, take m (drop n s)) ∷ text_pairs fuel (drop m (drop n s))
text_pairs (suc fuel) _ = []

pub text_pairs-pairs_text :
    (kvs : List (Str × Str)) → text_pairs (length kvs) (pairs_text kvs) ≡ kvs
text_pairs-pairs_text [] = refl
text_pairs-pairs_text ((k, v) ∷ rest) =
    rw
      (
        take-append_length k (v ++ pairs_text rest),
        drop-append_length k (v ++ pairs_text rest),
        take-append_length v (pairs_text rest),
        drop-append_length v (pairs_text rest),
        text_pairs-pairs_text rest,
      )
      refl

abbrev pub counted : Str → Result Str (List (Str × Str))
counted [] = err (codes "no list")
counted (n ∷ s) = ok (text_pairs n s)

pub counted-pairs_text : (kvs : List (Str × Str)) → counted (length kvs ∷ pairs_text kvs) ≡ ok kvs
counted-pairs_text kvs = rw (text_pairs-pairs_text kvs) refl

-- Texts one after the other, each after its length, and the number of texts in front.
abbrev pub pack : List Str → Str
pack [] = []
pack (t ∷ rest) = length t ∷ (t ++ pack rest)

abbrev pub unpack : ℕ → Str → List Str
unpack zero s = []
unpack (suc fuel) [] = []
unpack (suc fuel) (n ∷ s) = take n s ∷ unpack fuel (drop n s)

pub unpack-pack : (ts : List Str) → unpack (length ts) (pack ts) ≡ ts
unpack-pack [] = refl
unpack-pack (t ∷ rest) =
    rw (take-append_length t (pack rest), drop-append_length t (pack rest), unpack-pack rest) refl

abbrev pub packed : List Str → Str
packed ts = length ts ∷ pack ts

abbrev pub unpacked : Str → List Str
unpacked [] = []
unpacked (n ∷ s) = unpack n s

pub unpacked-map-packed : (ls : List (List Str)) → map unpacked (map packed ls) ≡ ls
unpacked-map-packed [] = refl
unpacked-map-packed (l ∷ rest) = rw (unpack-pack l, unpacked-map-packed rest) refl

pub unpacked-packed : (ls : List (List Str)) → map unpacked (unpacked (packed (map packed ls))) ≡ ls
unpacked-packed ls = rw (unpack-pack (map packed ls), unpacked-map-packed ls) refl

abbrev pub address_text : Str × Str × ℕ → Str
address_text a = a.2 ∷ length a.0 ∷ (a.0 ++ a.1)

abbrev pub text_address : Str → Result Str (Str × Str × ℕ)
text_address (port ∷ n ∷ rest) = ok (take n rest, drop n rest, port)
text_address _ = err (codes "no address")

pub text_address-address_text : (a : Str × Str × ℕ) → text_address (address_text a) ≡ ok a
text_address-address_text (protocol, host, port) =
    rw (take-append_length protocol host, drop-append_length protocol host) refl

abbrev pub sample_dxr : Dxr
sample_dxr = record {
  Value = Str;
  DxrError = Str;
  same = str_eq;
  same_iff = str_eq_iff;
  empty_struct = [];
  i4 = λ n. n ∷ [];
  from_text = λ s. s;
  from_texts = packed;
  to_i32 = first;
  to_bool = truth;
  to_text = λ v. ok v;
  to_texts = λ v. ok (v ∷ []);
  from_triple = λ t. t.0 ∷ length t.1 ∷ (t.1 ++ t.2);
  to_triple = split_triple;
  to_triple-from_triple = split_triple-append;
  invalid_data = λ s. s;
  from_pairs = λ kvs. length kvs ∷ pairs_text kvs;
  to_pairs = counted;
  to_pairs-from_pairs = counted-pairs_text;
  from_lists = λ ls. packed (map packed ls);
  from_address = address_text;
  to_address = text_address;
  to_address-from_address = text_address-address_text;
  is_mismatch_0 = λ e. false;
  show_error = λ e. e;
}

pub record Server : Type 0 where
  pub params : List (Str × Str)
  pub calls : ℕ

abbrev pub is_set : Str → Server → Bool
is_set name s = elim (lookup name s.params) [ none ↦ false | some v ↦ true ]

abbrev pub answer : Option Str → Result (ClientError sample_dxr) Str
answer none = err (api (invalid_request (codes "not set")))
answer (some v) = ok v

-- By the method, with the rest of the arguments after the caller.
abbrev pub serve : Str → List Str → Server → Result (ClientError sample_dxr) Str × Server
serve method (name ∷ []) s =
    if str_eq method (codes "getParam")
    then (answer (lookup name s.params), s)
    else if str_eq method (codes "hasParam")
    then (ok ((if is_set name s then 1 else 0) ∷ []), s)
    else if str_eq method (codes "deleteParam")
    then (if is_set name s
        then (ok (1 ∷ []), record s { params = remove name s.params })
        else (err (api (server_error (codes "not set"))), s))
    else (ok (1 ∷ []), s)
serve method (a ∷ b ∷ []) s =
    if str_eq method (codes "setParam")
    then (ok (1 ∷ []), record s { params = insert a b s.params })
    else if str_eq method (codes "subscribeParam")
    then (elim (lookup b s.params) [ none ↦ ok [] | some v ↦ ok v ], s)
    else (ok (1 ∷ []), s)
serve method _ s = (ok (1 ∷ []), s)

abbrev pub call_raw : Str → List Str → Action Server (ClientError sample_dxr) Str
call_raw method [] s = (err net, s)
call_raw method (caller ∷ rest) s = serve method rest (record s { calls = s.calls + 1 })

abbrev pub sample_world : World sample_dxr
sample_world = record { W = Server; call_raw = call_raw }

abbrev pub client : RosMasterClient
client = record { caller_id = codes "/node"; caller_api = codes "http://localhost:4000" }

abbrev pub server : Server
server = record { params = (codes "/rate", 50 ∷ []) ∷ []; calls = 0 }
