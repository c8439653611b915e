-- ===== src/Clock/Encoded.antt =====
-- A time in one atomic word: `EncodedTime` of rosrust-async/src/clock/mod.rs.
use rosrust_async.Base.{ℕ, ◌+◌, ◌*◌, ◌/◌, ◌%◌, ◌^◌, ◌<◌, ◌≡◌, ◌⊎◌, ◌↔◌, arith}

-- Two `u32` fields.
pub record Time : Type 0 where
  pub sec : ℕ
  pub nsec : ℕ

pub record IsTime (t : Time) : Type 0 where
  pub sec_fits : t.sec < 2 ^ 32
  pub nsec_fits : t.nsec < 2 ^ 32

-- `((time.sec as u64) << 32) | time.nsec as u64`: the low 32 bits of the shifted word are 0, so the
-- `|` is a sum.
unfoldable pub encode_time : Time → ℕ
encode_time t = t.sec * 2 ^ 32 % 2 ^ 64 + t.nsec

unfoldable pub decode_time : ℕ → Time
decode_time encoded = record { sec = encoded / 2 ^ 32 % 2 ^ 32; nsec = encoded % 2 ^ 32 }

-- A time of two 32-bit fields is read back from its word as it was, and the word fits 64 bits.
pub decode_time-encode_time :
    (t : Time) → IsTime t → (decode_time (encode_time t) ≡ t) × (encode_time t < 2 ^ 64)
unfolding decode_time encode_time
decode_time-encode_time t h = (ground arith, omega arith)

-- For times of two 32-bit fields, the words compare as the times do, seconds first.
pub encode_time-lt :
    (a b : Time)
    → IsTime a
    → IsTime b
    → (encode_time a < encode_time b) ↔ ((a.sec < b.sec) ⊎ ((a.sec ≡ b.sec) × (a.nsec < b.nsec)))
unfolding encode_time
encode_time-lt a b ha hb = (λ h. ground arith, λ h. omega arith)
