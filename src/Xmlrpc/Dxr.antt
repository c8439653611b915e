-- ===== src/Xmlrpc/Dxr.antt =====
-- What the code uses of the `dxr` crate: XML-RPC values, and the conversions from and to Rust types
-- that the calls name. The laws say that a conversion back inverts a conversion, as dxr documents.
use rosrust_async.Base.{ℕ, ◌≡◌, ◌↔◌, Bool, true, List, Str, Result, ok}

-- An `i32` is its bit pattern, a number below 2 ^ 32.
pub record Dxr : Type 1 where
  pub Value : Type 0
  pub DxrError : Type 0
  pub same : Value → Value → Bool
  pub same_iff : (a b : Value) → (same a b ≡ true) ↔ (a ≡ b)
  -- The value of an empty map.
  pub empty_struct : Value
  pub i4 : ℕ → Value
  pub from_text : Str → Value
  pub from_texts : List Str → Value
  pub to_i32 : Value → Result DxrError ℕ
  pub to_bool : Value → Result DxrError Bool
  pub to_text : Value → Result DxrError Str
  pub to_texts : Value → Result DxrError (List Str)
  -- `(i32, String, Value)`
  pub from_triple : ℕ × Str × Value → Value
  pub to_triple : Value → Result DxrError (ℕ × Str × Value)
  pub to_triple-from_triple : (t : ℕ × Str × Value) → to_triple (from_triple t) ≡ ok t
  -- `DxrError::InvalidData` with its text.
  pub invalid_data : Str → DxrError
  -- `Vec<(String, String)>`, `Vec<Vec<String>>` and `(String, String, i32)`.
  pub from_pairs : List (Str × Str) → Value
  pub to_pairs : Value → Result DxrError (List (Str × Str))
  pub to_pairs-from_pairs : (kvs : List (Str × Str)) → to_pairs (from_pairs kvs) ≡ ok kvs
  pub from_lists : List (List Str) → Value
  pub from_address : Str × Str × ℕ → Value
  pub to_address : Value → Result DxrError (Str × Str × ℕ)
  pub to_address-from_address : (a : Str × Str × ℕ) → to_address (from_address a) ≡ ok a
  -- `DxrError::ParameterMismatch` with the argument 0, and the error's text.
  pub is_mismatch_0 : DxrError → Bool
  pub show_error : DxrError → Str
