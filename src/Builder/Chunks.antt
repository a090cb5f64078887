-- ===== src/Builder/Chunks.antt =====
-- The stream may be cut anywhere: connection/packet_builder.rs fed in chunks.
use mqtt_protocol_core.Common.{
  ℕ, ◌+◌, ◌-◌, ◌*◌, ◌<◌, ◌≡◌, ◌≢◌, refl, List, [], ◌∷◌, ◌++◌, Option, some, ltb, ◌==◌,
  if◌then◌else◌, length, first, arith, ap, sym, subst, ◌∙◌, inl, inr, Bool-cases,
}
use mqtt_protocol_core.Builder.{
  PacketBuilder, PacketBuildResult, fixed_header_state, remaining_length_state, payload_state,
  complete, incomplete, error, finish, LengthStep, done, more, length_step, payload_step, feed_loop,
  feed,
}
use mqtt_protocol_core.Builder.Payload.{
  payload_at, IsPartial, in_header, in_length, in_payload, payload_step_short, payload_step_full,
  feed_loop-payload_at, payload_step-append,
}
use mqtt_protocol_core.Builder.{new, normal, publish}
use mqtt_protocol_core.ResultCode.{malformed_packet}
use Prim.Native.Nat.{bit_and}
use native.Mathlib.Decide.{dec_lt}

abbrev Outcome : Type 0
Outcome = Option (PacketBuildResult × PacketBuilder × List ℕ)

-- The loop's arms as equations, by the builder's state.
pub at_end :
    (b : PacketBuilder) → b.state ≢ payload_state → feed_loop b [] ≡ some (incomplete, b, [])
unfolding feed_loop
at_end b h = ground arith

pub in_header_step :
    (b : PacketBuilder) (x : ℕ) (xs : List ℕ)
    → b.state ≡ fixed_header_state
    → feed_loop b (x ∷ xs)
      ≡ feed_loop
          (record b { header_buf = b.header_buf ++ x ∷ []; state = remaining_length_state })
          xs
unfolding feed_loop
in_header_step b x xs e = rw (e, feed_loop)

unfoldable pub after_length : LengthStep → List ℕ → Outcome
after_length (done r) xs = r
after_length (more b) xs = feed_loop b xs

pub in_length_step :
    (b : PacketBuilder) (x : ℕ) (xs : List ℕ)
    → b.state ≡ remaining_length_state
    → feed_loop b (x ∷ xs) ≡ after_length (length_step b x xs) xs
unfolding feed_loop after_length
in_length_step b x xs e = ground arith

first_append : (xs : List ℕ) (x : ℕ) → (y : ℕ) × (first (xs ++ x ∷ []) ≡ some y)
first_append [] x = (x, refl)
first_append (y ∷ ys) x = (y, refl)

pub finish-first :
    (b : PacketBuilder) (y : ℕ) (bytes rest : List ℕ)
    → first b.header_buf ≡ some y
    → finish b bytes rest
      ≡ some (
        complete (record {
          fixed_header = y;
          data_bytes = if bit_and y 0xF0 == 0x30 then publish bytes else normal bytes;
        }),
        new,
        rest,
      )
unfolding finish
finish-first b y bytes rest e = ground arith

-- A byte of the remaining length ends the call or leaves a builder that reads on, whatever follows.
data LengthCases (b : PacketBuilder) (x : ℕ) : Type 0 where
  reads_on :
      (b' : PacketBuilder)
      → IsPartial b'
      → ((xs : List ℕ) → length_step b x xs ≡ more b')
      → LengthCases b x
  ends :
      (r : PacketBuildResult) (b' : PacketBuilder)
      → r ≢ incomplete
      → ((xs : List ℕ) → length_step b x xs ≡ done (some (r, b', xs)))
      → LengthCases b x

length_step_cases : (b : PacketBuilder) (x : ℕ) → b.state ≡ remaining_length_state → LengthCases b x
unfolding length_step
length_step_cases b x e =
    let (y, fst) = first_append b.header_buf x in
    let too_long = ltb (128 * 128 * 128) (b.multiplier * 128) in
    let last = bit_and x 0x80 == 0 in
    let left = b.remaining_length + bit_and x 0x7F * b.multiplier in
    let b₁ : PacketBuilder = record b {
      header_buf = b.header_buf ++ x ∷ [];
      remaining_length = left;
      multiplier = b.multiplier * 128;
    } in
    elim (Bool-cases too_long) [
      | inl t ↦ ends (error malformed_packet) new (λ p. cc) (λ xs. rw t)
      | inr t ↦ elim (Bool-cases last) [
        | inr u ↦ reads_on b₁ (in_length e) (λ xs. rw (t, u))
        | inl u ↦ elim (Bool-cases (left == 0)) [
          | inl w ↦
              ends
                (complete (record {
                  fixed_header = y;
                  data_bytes = if bit_and y 0xF0 == 0x30 then publish [] else normal [];
                }))
                new (λ p. cc) (λ xs. rw (t, u, w) (ap done (finish-first b₁ y [] xs fst)))
          | inr w ↦
              reads_on (record b₁ { raw_buf = some []; raw_buf_offset = 0; state = payload_state })
                (in_payload (b.header_buf ++ x ∷ []) left (b.multiplier * 128) [] (ground arith)
                  refl)
                (λ xs. rw (t, u, w))
        ]
      ]
    ]

-- What holds of a call on `xs`, whatever bytes `ys` follow.
abbrev Splits : PacketBuilder → List ℕ → List ℕ → PacketBuilder → List ℕ → Type 0
Splits b xs ys b' rest = (rest ≡ []) × IsPartial b' × (feed_loop b (xs ++ ys) ≡ feed_loop b' ys)

finish-ne-incomplete :
    (b c : PacketBuilder) (bytes rest rest' : List ℕ)
    → finish b bytes rest ≢ some (incomplete, c, rest')
unfolding finish
finish-ne-incomplete b c bytes rest rest' e = ground arith

payload-Splits :
    (header : List ℕ) (left m : ℕ) (buf xs ys rest : List ℕ) (b' : PacketBuilder)
    → 0 < left
    → payload_step (payload_at header left m buf) xs ≡ some (incomplete, b', rest)
    → Splits (payload_at header left m buf) xs ys b' rest
payload-Splits header left m buf xs ys rest b' p e = elim (dec_lt (length xs) left) [
  | yes short ↦
      let step = payload_step_short header left m buf xs short in
      let l : payload_at header (left - length xs) m (buf ++ xs) ≡ b' = cc step in
      let r : rest ≡ [] = cc step in
      (
        r,
        in_payload header (left - length xs) m (buf ++ xs) (omega arith) (sym l),
        feed_loop-payload_at header left m buf (xs ++ ys)
            ∙ payload_step-append header left m buf xs ys short
            ∙ sym (feed_loop-payload_at header (left - length xs) m (buf ++ xs) ys)
            ∙ ap (λ c. feed_loop c ys) l,
      )
  | no full ↦ absurd (
      finish-ne-incomplete _ b' _ _ rest
        (sym (payload_step_full header left m buf xs p (omega arith)) ∙ e))
]

-- The case of a byte of the remaining length, from what holds of the bytes after it.
length-Splits :
    (b b' : PacketBuilder) (x : ℕ) (xs ys rest : List ℕ)
    → b.state ≡ remaining_length_state
    → feed_loop b (x ∷ xs) ≡ some (incomplete, b', rest)
    → ((c c' : PacketBuilder)
        → IsPartial c
        → feed_loop c xs ≡ some (incomplete, c', rest)
        → Splits c xs ys c' rest)
    → LengthCases b x
    → Splits b (x ∷ xs) ys b' rest
unfolding after_length
length-Splits b b' x xs ys rest s e ih (reads_on c p f) =
    let step = λ (zs : List ℕ). in_length_step b x zs s ∙ ap (λ l. after_length l zs) (f zs) in
    let (r, p', g) = ih c b' p (sym (step xs) ∙ e) in (r, p', step (xs ++ ys) ∙ g)
length-Splits b b' x xs ys rest s e ih (ends r c n f) =
    let step = in_length_step b x xs s ∙ ap (λ l. after_length l xs) (f xs) in
    absurd (n (cc (sym step ∙ e)))

-- A call that asks for more has read everything; what follows goes on where it stopped.
pub feed_loop_more :
    (xs ys rest : List ℕ) (b b' : PacketBuilder)
    → IsPartial b
    → feed_loop b xs ≡ some (incomplete, b', rest)
    → Splits b xs ys b' rest
feed_loop_more xs ys rest b b' (in_payload header left m buf p s) e =
    subst (λ c. feed_loop c xs ≡ some (incomplete, b', rest) → Splits c xs ys b' rest) (sym s)
      (λ f.
        payload-Splits header left m buf xs ys rest b' p
          (sym (feed_loop-payload_at header left m buf xs) ∙ f))
      e
feed_loop_more [] ys rest b b' (in_header s) e =
    let same : b ≡ b' = cc (at_end b (λ t. cc)) in
    (
      cc (at_end b (λ t. cc)),
      in_header (ap (λ c. c.state) (sym same) ∙ s),
      ap (λ c. feed_loop c ys) same,
    )
feed_loop_more [] ys rest b b' (in_length s) e =
    let same : b ≡ b' = cc (at_end b (λ t. cc)) in
    (
      cc (at_end b (λ t. cc)),
      in_length (ap (λ c. c.state) (sym same) ∙ s),
      ap (λ c. feed_loop c ys) same,
    )
feed_loop_more (x ∷ xs) ys rest b b' (in_header s) e =
    let next : PacketBuilder = record b {
      header_buf = b.header_buf ++ x ∷ [];
      state = remaining_length_state;
    } in
    let (r, p, f) =
      feed_loop_more xs ys rest next b' (in_length refl) (sym (in_header_step b x xs s) ∙ e) in
    (r, p, in_header_step b x (xs ++ ys) s ∙ f)
feed_loop_more (x ∷ xs) ys rest b b' (in_length s) e =
    length-Splits b b' x xs ys rest s e (feed_loop_more xs ys rest) (length_step_cases b x s)

-- Cutting the stream between two calls changes nothing: if `feed` asks for more after `xs`, it has
-- read all of them, and feeding `ys` then gives what feeding both at once gives, in the result, in
-- the builder and in the bytes left over.
pub feed-append :
    (xs ys rest : List ℕ) (b b' : PacketBuilder)
    → IsPartial b
    → ys ≢ []
    → feed b xs ≡ some (incomplete, b', rest)
    → (rest ≡ []) × IsPartial b' × (feed b (xs ++ ys) ≡ feed b' ys)
unfolding feed
feed-append xs [] rest b b' p h e = absurd (h refl)
feed-append [] (y ∷ ys) rest b b' p h e =
    let same : b ≡ b' = cc e in (cc e, subst IsPartial same p, ap (λ c. feed_loop c (y ∷ ys)) same)
feed-append (x ∷ xs) (y ∷ ys) rest b b' p h e = feed_loop_more (x ∷ xs) (y ∷ ys) rest b b' p e
