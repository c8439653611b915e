-- ===== src/Tcpros/Bytes.antt =====
-- Little-endian lengths and frames: `read_tcpros_frame` of rosrust-async/src/tcpros/mod.rs, and what
-- it and the header code use of `byteorder` and `Read`. A stream is the list of the bytes that are
-- still to come, and ends where the peer closes it.
use rosrust_async.Base.{
  ℕ, ◌+◌, ◌*◌, ◌/◌, ◌%◌, ◌^◌, ◌<◌, ◌≡◌, refl, ap, [], ◌∷◌, ◌++◌, arith, leb, if◌then◌else◌, length,
  take, drop, length-append, take-append_length, drop-append_length, Str, Result, ok, err, ◌>>=◌,
  append_assoc, All, zero, suc,
}

pub data IoError : Type 0 where
  unexpected_eof other : IoError

-- `write_u32::<LittleEndian>`, of a value below 2 ^ 32.
unfoldable pub write_u32 : ℕ → Str
write_u32 n = n % 256 ∷ n / 256 % 256 ∷ n / 65536 % 256 ∷ n / 16777216 % 256 ∷ []

unfoldable pub read_u32 : Str → Result IoError (ℕ × Str)
read_u32 (a ∷ b ∷ c ∷ d ∷ rest) = ok (a + b * 256 + c * 65536 + d * 16777216, rest)
read_u32 _ = err unexpected_eof

unfoldable pub read_exact : ℕ → Str → Result IoError (Str × Str)
read_exact n s = if leb n (length s) then ok (take n s, drop n s) else err unexpected_eof

-- The frame with its length in front, and what is left of the stream.
unfoldable pub read_tcpros_frame : Str → Result IoError (Str × Str)
read_tcpros_frame s = do
  (body_length, body) ← read_u32 s
  (content, rest) ← read_exact body_length body
  ok (write_u32 body_length ++ content, rest)

abbrev pub IsByte : ℕ → Type 0
IsByte b = b < 256

-- A body with its length in front.
abbrev pub frame : Str → Str
frame body = write_u32 (length body) ++ body

pub length-write_u32 : (n : ℕ) → length (write_u32 n) ≡ 4
unfolding write_u32
length-write_u32 n = refl

pub read_u32-write_u32 :
    (n : ℕ) (rest : Str) → n < 2 ^ 32 → read_u32 (write_u32 n ++ rest) ≡ ok (n, rest)
unfolding read_u32 write_u32
read_u32-write_u32 n rest h = ap (λ (k : ℕ). ok (k, rest)) (omega arith)

pub read_exact-append : (s rest : Str) → read_exact (length s) (s ++ rest) ≡ ok (s, rest)
unfolding read_exact
read_exact-append s rest =
    ground (arith, length-append s rest, take-append_length s rest, drop-append_length s rest)

-- A frame whose length fits is read whole, and what follows it stays in the stream.
pub read_tcpros_frame-frame :
    (body rest : Str)
    → length body < 2 ^ 32
    → read_tcpros_frame (frame body ++ rest) ≡ ok (frame body, rest)
unfolding read_tcpros_frame
read_tcpros_frame-frame body rest h = rw (
  append_assoc (write_u32 (length body)) body rest,
  read_u32-write_u32 (length body) (body ++ rest) h,
  read_exact-append body rest,
)

write_u32-read_u32 :
    (a b c d : ℕ)
    → a < 256
    → b < 256
    → c < 256
    → d < 256
    → write_u32 (a + b * 256 + c * 65536 + d * 16777216) ≡ a ∷ b ∷ c ∷ d ∷ []
unfolding write_u32
write_u32-read_u32 a b c d ha hb hc hd = ground arith

take-append-drop : (n : ℕ) (s : Str) → take n s ++ drop n s ≡ s
take-append-drop zero s = refl
take-append-drop (suc n) [] = refl
take-append-drop (suc n) (x ∷ s) = rw (take-append-drop n s)

-- Where a frame is read off a stream of bytes, the stream is the frame followed by what is left:
-- nothing is lost, repeated or changed.
pub read_tcpros_frame-append :
    (s f rest : Str) → All IsByte s → read_tcpros_frame s ≡ ok (f, rest) → s ≡ f ++ rest
unfolding read_tcpros_frame read_u32
read_tcpros_frame-append [] f rest h e = cc
read_tcpros_frame-append (a ∷ []) f rest h e = cc
read_tcpros_frame-append (a ∷ b ∷ []) f rest h e = cc
read_tcpros_frame-append (a ∷ b ∷ c ∷ []) f rest h e = cc
read_tcpros_frame-append (a ∷ b ∷ c ∷ d ∷ s) f rest (ha, (hb, (hc, (hd, hs)))) e =
    let n = a + b * 256 + c * 65536 + d * 16777216 in
    unfold read_exact in
    ground (arith, write_u32-read_u32 a b c d ha hb hc hd, take-append-drop n s)
