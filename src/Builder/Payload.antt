-- ===== src/Builder/Payload.antt =====
-- The payload arm of `feed` in connection/packet_builder.rs: appending what there is.
use mqtt_protocol_core.Common.{
  ℕ, zero, suc, ◌+◌, ◌-◌, ◌≤◌, ◌<◌, ◌≡◌, refl, List, [], ◌∷◌, ◌++◌, some, length, take, drop,
  replicate, min, arith, ap, sym, ◌∙◌, length-append,
}
use mathlib.Core.List.{append-nil, append_assoc}
use mathlib.Core.Path.{ap₂}
use native.Mathlib.Decide.{dec_lt}
use native.Mathlib.Nat.{sub-zero}
use mqtt_protocol_core.Builder.{
  PacketBuilder, fixed_header_state, remaining_length_state, payload_state, incomplete, finish,
  payload_step, feed_loop,
}

-- A builder in the middle of the payload: the buffer is filled up to the offset.
abbrev pub payload_at : List ℕ → ℕ → ℕ → List ℕ → PacketBuilder
payload_at header left multiplier buf = record {
  state = payload_state;
  header_buf = header;
  remaining_length = left;
  multiplier = multiplier;
  raw_buf = some buf;
  raw_buf_offset = length buf;
}

-- What a builder looks like between two calls.
pub data IsPartial (b : PacketBuilder) : Type 0 where
  in_header : b.state ≡ fixed_header_state → IsPartial b
  in_length : b.state ≡ remaining_length_state → IsPartial b
  in_payload :
      (header : List ℕ) (left multiplier : ℕ) (buf : List ℕ)
      → 0 < left
      → b ≡ payload_at header left multiplier buf
      → IsPartial b

resize-take :
    (buf zs : List ℕ) (n : ℕ) → take (length buf) (take (length buf + n) (buf ++ zs)) ≡ buf
resize-take [] zs n = refl
resize-take (x ∷ buf) zs n =
    let e : suc (length buf) + n ≡ suc (length buf + n) = omega arith in
    rw e (ap (◌∷◌ x) (resize-take buf zs n))

take_all : (n : ℕ) (xs : List ℕ) → length xs ≤ n → take n xs ≡ xs
take_all zero [] h = refl
take_all zero (x ∷ xs) h = absurd (omega arith)
take_all (suc n) [] h = refl
take_all (suc n) (x ∷ xs) h = ap (◌∷◌ x) (take_all n xs (omega arith))

drop_all : (n : ℕ) (xs : List ℕ) → length xs ≤ n → drop n xs ≡ []
drop_all zero [] h = refl
drop_all zero (x ∷ xs) h = absurd (omega arith)
drop_all (suc n) [] h = refl
drop_all (suc n) (x ∷ xs) h = drop_all n xs (omega arith)

length-zero : (xs : List ℕ) → length xs ≡ 0 → xs ≡ []
length-zero [] h = refl
length-zero (x ∷ xs) h = absurd (omega arith)

-- The payload arm in plain words: it appends what there is, and finishes when nothing is left.
pub payload_step_short :
    (header : List ℕ) (left m : ℕ) (buf bytes : List ℕ)
    → length bytes < left
    → payload_step (payload_at header left m buf) bytes
      ≡ some (incomplete, payload_at header (left - length bytes) m (buf ++ bytes), [])
unfolding payload_step
payload_step_short header left m buf bytes h =
    let n : min left (length bytes) ≡ length bytes = omega arith in
    let kept = resize-take buf (replicate (length buf + length bytes) 0) (length bytes) in
    let all = take_all (length bytes) bytes (omega arith) in
    let none_left = drop_all (length bytes) bytes (omega arith) in
    ground
      (arith, n, kept, all, none_left, length-append buf bytes, append-nil buf, length-zero bytes)

pub payload_step_full :
    (header : List ℕ) (left m : ℕ) (buf bytes : List ℕ)
    → 0 < left
    → left ≤ length bytes
    → payload_step (payload_at header left m buf) bytes
      ≡ finish (payload_at header left m buf) (buf ++ take left bytes) (drop left bytes)
unfolding payload_step finish
payload_step_full header left m buf bytes p h =
    let n : min left (length bytes) ≡ left = omega arith in
    ground (arith, n, resize-take buf (replicate (length buf + left) 0) left)

pub feed_loop-payload_at :
    (header : List ℕ) (left m : ℕ) (buf bytes : List ℕ)
    → feed_loop (payload_at header left m buf) bytes
      ≡ payload_step (payload_at header left m buf) bytes
unfolding feed_loop
feed_loop-payload_at header left m buf [] = refl
feed_loop-payload_at header left m buf (x ∷ xs) = refl

take-append_past :
    (n : ℕ) (xs ys : List ℕ) → length xs ≤ n → take n (xs ++ ys) ≡ xs ++ take (n - length xs) ys
take-append_past n [] ys h = rw sub-zero
take-append_past zero (x ∷ xs) ys h = absurd (omega arith)
take-append_past (suc n) (x ∷ xs) ys h =
    let e : suc n - suc (length xs) ≡ n - length xs = omega arith in
    rw e (ap (◌∷◌ x) (take-append_past n xs ys (omega arith)))

drop-append_past :
    (n : ℕ) (xs ys : List ℕ) → length xs ≤ n → drop n (xs ++ ys) ≡ drop (n - length xs) ys
drop-append_past n [] ys h = rw sub-zero
drop-append_past zero (x ∷ xs) ys h = absurd (omega arith)
drop-append_past (suc n) (x ∷ xs) ys h =
    let e : suc n - suc (length xs) ≡ n - length xs = omega arith in
    rw e (drop-append_past n xs ys (omega arith))

finish-header :
    (header : List ℕ) (l l' m : ℕ) (buf buf' bytes rest : List ℕ)
    → finish (payload_at header l m buf) bytes rest
      ≡ finish (payload_at header l' m buf') bytes rest
unfolding finish
finish-header header l l' m buf buf' bytes rest = refl

-- Bytes that do not complete the payload may as well come in a call of their own.
pub payload_step-append :
    (header : List ℕ) (left m : ℕ) (buf xs ys : List ℕ)
    → length xs < left
    → payload_step (payload_at header left m buf) (xs ++ ys)
      ≡ payload_step (payload_at header (left - length xs) m (buf ++ xs)) ys
payload_step-append header left m buf xs ys h =
    let n = length-append xs ys in
    elim (dec_lt (length xs + length ys) left) [
      | yes short ↦
          payload_step_short header left m buf (xs ++ ys) (omega (arith, n))
          ∙ ap₂ (λ l bs. some (incomplete, payload_at header l m bs, [])) (omega (arith, n))
              (sym (append_assoc buf xs ys))
          ∙ sym (payload_step_short header (left - length xs) m (buf ++ xs) ys (omega arith))
      | no full ↦
          payload_step_full header left m buf (xs ++ ys) (omega arith) (omega (arith, n))
          ∙ rw
              (take-append_past left xs ys (omega arith), drop-append_past left xs ys (omega arith))
              (ap (λ bs. finish (payload_at header left m buf) bs (drop (left - length xs) ys))
                  (sym (append_assoc buf xs _))
                ∙ finish-header header left (left - length xs) m buf (buf ++ xs) _ _)
          ∙ sym (
              payload_step_full header (left - length xs) m (buf ++ xs) ys (omega arith)
                (omega arith))
    ]
