-- ===== src/Vbi/Streaming.antt =====
-- `decode_stream` of packet/variable_byte_integer.rs against the encoder.
use mqtt_protocol_core.Common.{
  ℕ, zero, suc, ◌+◌, ◌-◌, ◌*◌, ◌/◌, ◌%◌, ◌^◌, ◌≤◌, ◌<◌, ◌≡◌, ◌≢◌, inl, inr, if◌then◌else◌, refl,
  List, [], ◌∷◌, ◌++◌, ltb, ◌==◌, length, take, arith, ◌∙◌, ap, true, false,
}
use mqtt_protocol_core.Common.Bits.{low_bits, top_bit}
use mqtt_protocol_core.Vbi.{
  max_value, from_u32, ok, incomplete, decode_loop, decode_stream, complete, panicked,
}
use Prim.Native.Nat.{bit_and, min}
use mqtt_protocol_core.Vbi.Encoding.{
  to_u32-from_u32, bytes, from_u32-bytes, Shape, one, two, three, four, bytes_cases,
}

-- One round on a byte that others follow, and on a last byte.
inner_round :
    (g m value total i : ℕ) (bs : List ℕ)
    → g < 128
    → m ≤ 2097152
    → value + g * m ≤ max_value
    → decode_loop ((g + 128) ∷ bs) total i m value
      ≡ decode_loop bs total (i + 1) (m * 128) (value + g * m)
unfolding decode_loop
inner_round g m value total i bs hg hm hv =
    let low : bit_and (g + 128) 0x7F ≡ g = low_bits (g + 128) (omega arith) ∙ omega arith in
    let sum : min (value + g * m % 2 ^ 32) (2 ^ 32 - 1) ≡ value + g * m = omega arith in
    let fits : ltb max_value (value + g * m) ≡ false = ground arith in
    let goes_on : (bit_and (g + 128) 0x80 == 0) ≡ false = ground (arith, top_bit (g + 128)) in
    let no_wrap : ltb (2 ^ 32 - 1) (m * 128) ≡ false = ground arith in
    rw (low, sum, fits, goes_on, no_wrap)

last_round :
    (b m value total i : ℕ) (bs : List ℕ)
    → b < 128
    → value + b * m ≤ max_value
    → decode_loop (b ∷ bs) total i m value ≡ complete (from_u32 (value + b * m)) (i + 1)
unfolding decode_loop
last_round b m value total i bs hb hv =
    let low : bit_and b 0x7F ≡ b = low_bits b (omega arith) ∙ omega arith in
    let sum : min (value + b * m % 2 ^ 32) (2 ^ 32 - 1) ≡ value + b * m = omega arith in
    let fits : ltb max_value (value + b * m) ≡ false = ground arith in
    let ends : (bit_and b 0x80 == 0) ≡ true = ground (arith, top_bit b) in rw (low, sum, fits, ends)

-- The decoder runs through the encoding, whatever follows, to `from_u32` on the value.
decode_stream-Shape :
    (v : ℕ) (bs rest : List ℕ)
    → v ≤ max_value
    → Shape v bs
    → decode_stream (bs ++ rest) ≡ complete (from_u32 v) (length bs)
unfolding decode_stream
decode_stream-Shape v bs rest h (one l e) = rw e (
    last_round v 1 0 _ 0 (take 3 rest) l (omega arith)
    ∙ ap (λ w. complete (from_u32 w) 1) (omega arith))
decode_stream-Shape v bs rest h (two lo l e) =
    let v1 = v / 128 in
    let s0 = 0 + v % 128 * 1 in
    rw e (
      inner_round (v % 128) 1 0 _ 0 (v1 ∷ take 2 rest) (omega arith) (omega arith) (omega arith)
      ∙ last_round v1 128 s0 _ 1 (take 2 rest) l (omega arith)
      ∙ ap (λ w. complete (from_u32 w) 2) (omega arith))
decode_stream-Shape v bs rest h (three lo l e) =
    let v1 = v / 128 in
    let v2 = v1 / 128 in
    let s0 = 0 + v % 128 * 1 in
    let s1 = s0 + v1 % 128 * 128 in
    rw e (
      inner_round (v % 128) 1 0 _ 0 _ (omega arith) (omega arith) (omega arith)
      ∙ inner_round (v1 % 128) 128 s0 _ 1 _ (omega arith) (omega arith) (omega arith)
      ∙ last_round v2 16384 s1 _ 2 (take 1 rest) l (omega arith)
      ∙ ap (λ w. complete (from_u32 w) 3) (omega arith))
decode_stream-Shape v bs rest h (four lo l e) =
    let v1 = v / 128 in
    let v2 = v1 / 128 in
    let v3 = v2 / 128 in
    let s0 = 0 + v % 128 * 1 in
    let s1 = s0 + v1 % 128 * 128 in
    let s2 = s1 + v2 % 128 * 16384 in
    rw e (
      inner_round (v % 128) 1 0 _ 0 _ (omega arith) (omega arith) (omega arith)
      ∙ inner_round (v1 % 128) 128 s0 _ 1 _ (omega arith) (omega arith) (omega arith)
      ∙ inner_round (v2 % 128) 16384 s1 _ 2 _ (omega arith) (omega arith) (omega arith)
      ∙ last_round v3 2097152 s2 _ 3 [] l (omega arith)
      ∙ ap (λ w. complete (from_u32 w) 4) (omega arith))

-- What `decode_stream` reads in front of any rest is what `from_u32` wrote, and no more.
pub decode_stream-bytes :
    (v : ℕ) (rest : List ℕ)
    → v ≤ max_value
    → decode_stream (bytes v ++ rest) ≡ ok (bytes v) (length (bytes v))
unfolding complete
decode_stream-bytes v rest h =
    decode_stream-Shape v (bytes v) rest h (bytes_cases v h) ∙ rw (from_u32-bytes v h)

-- One, two or three bytes that others would follow.
cut_one : (f : ℕ) → f < 128 → decode_stream ((f + 128) ∷ []) ≡ incomplete
unfolding decode_stream decode_loop
cut_one f hf = inner_round f 1 0 1 0 [] hf (omega arith) (omega arith)

cut_two : (f g : ℕ) → f < 128 → g < 128 → decode_stream ((f + 128) ∷ (g + 128) ∷ []) ≡ incomplete
unfolding decode_stream decode_loop
cut_two f g hf hg =
    inner_round f 1 0 2 0 ((g + 128) ∷ []) hf (omega arith) (omega arith)
    ∙ inner_round g 128 (0 + f * 1) 2 1 [] hg (omega arith) (omega arith)

cut_three :
    (f g k : ℕ)
    → f < 128
    → g < 128
    → k < 128
    → decode_stream ((f + 128) ∷ (g + 128) ∷ (k + 128) ∷ []) ≡ incomplete
unfolding decode_stream decode_loop
cut_three f g k hf hg hk =
    inner_round f 1 0 3 0 ((g + 128) ∷ (k + 128) ∷ []) hf (omega arith) (omega arith)
    ∙ inner_round g 128 (0 + f * 1) 3 1 ((k + 128) ∷ []) hg (omega arith) (omega arith)
    ∙ inner_round k 16384 (0 + f * 1 + g * 128) 3 2 [] hk (omega arith) (omega arith)

prefix-Shape :
    (v k : ℕ) (bs : List ℕ) → Shape v bs → k < length bs → decode_stream (take k bs) ≡ incomplete
unfolding decode_stream decode_loop
prefix-Shape v zero bs s l = refl
prefix-Shape v (suc k) bs (one m e) l = absurd (omega (arith, ap length e))
prefix-Shape v (suc zero) bs (two lo m e) l = rw e (cut_one (v % 128) (omega arith))
prefix-Shape v (suc (suc k)) bs (two lo m e) l = absurd (omega (arith, ap length e))
prefix-Shape v (suc zero) bs (three lo m e) l = rw e (cut_one (v % 128) (omega arith))
prefix-Shape v (suc (suc zero)) bs (three lo m e) l =
    rw e (cut_two (v % 128) (v / 128 % 128) (omega arith) (omega arith))
prefix-Shape v (suc (suc (suc k))) bs (three lo m e) l = absurd (omega (arith, ap length e))
prefix-Shape v (suc zero) bs (four lo m e) l = rw e (cut_one (v % 128) (omega arith))
prefix-Shape v (suc (suc zero)) bs (four lo m e) l =
    rw e (cut_two (v % 128) (v / 128 % 128) (omega arith) (omega arith))
prefix-Shape v (suc (suc (suc zero))) bs (four lo m e) l = rw e (
    cut_three (v % 128) (v / 128 % 128) (v / 128 / 128 % 128) (omega arith) (omega arith)
      (omega arith))
prefix-Shape v (suc (suc (suc (suc k)))) bs (four lo m e) l = absurd (omega (arith, ap length e))

-- On every proper prefix of an encoding `decode_stream` asks for more bytes.
pub decode_stream_prefix :
    (v k : ℕ) → v ≤ max_value → k < length (bytes v) → decode_stream (take k (bytes v)) ≡ incomplete
decode_stream_prefix v k h l = prefix-Shape v k (bytes v) (bytes_cases v h) l

complete-ne-panicked : (v n : ℕ) → complete (from_u32 v) n ≢ panicked
unfolding complete
complete-ne-panicked v n = elim (to_u32-from_u32 v) [
  | inl facts ↦ rw (facts.2, complete) (λ e. cc)
  | inr facts ↦ rw (facts.1, complete) (λ e. cc)
]

decode_loop-ne-panicked :
    (bs : List ℕ) (total i multiplier value : ℕ)
    → decode_loop bs total i multiplier value ≢ panicked
unfolding decode_loop
decode_loop-ne-panicked [] total i m v = ground arith
decode_loop-ne-panicked (b ∷ bs) total i m v =
    let v' = min (v + bit_and b 0x7F * m % 2 ^ 32) (2 ^ 32 - 1) in
    let m' = if ltb (2 ^ 32 - 1) (m * 128) then 0 else m * 128 in
    ground (arith, complete-ne-panicked v' (i + 1), decode_loop-ne-panicked bs total (i + 1) m' v')

-- Decoding never fails on the value that it has read.
pub decode_stream-ne-panicked : (buf : List ℕ) → decode_stream buf ≢ panicked
unfolding decode_stream
decode_stream-ne-panicked buf = decode_loop-ne-panicked (take 4 buf) (length buf) 0 1 0
