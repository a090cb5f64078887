-- ===== src/Codec/Laws.antt =====
-- What the round trips of the packets need of the shared reads.
use mathlib.Core.List.{append_assoc, append-nil}
use mqtt_protocol_core.Common.{
  ℕ, zero, suc, ◌≤◌, ◌≡◌, refl, ap, ◌∙◌, Bool, true, false, List, [], ◌∷◌, ◌++◌, Option, none, some,
  length, drop, All, arith, length-append, drop-length,
}
use mqtt_protocol_core.ResultCode.{Result, ok}
use mqtt_protocol_core.Wire.Text.{MqttString}
use mqtt_protocol_core.Wire.Text.Laws as TextLaws
use mqtt_protocol_core.Wire.Binary.{MqttBinary}
use mqtt_protocol_core.Wire.Binary.Laws.{IsPrefixed}
use mqtt_protocol_core.Wire.Binary.Laws as BinaryLaws
use mqtt_protocol_core.Wire.Property.Laws.{IsText}
use mqtt_protocol_core.Codec.{
  advance, read_text, read_binary, read_codes, read_many, sum_of, concat_of,
}

pub read_text-append :
    (s : MqttString) (rest : List ℕ) → IsText s → read_text (s.encoded ++ rest) ≡ ok (s, rest)
unfolding read_text IsText
read_text-append s rest (p, u) =
    ap (λ r. advance r (s.encoded ++ rest)) (TextLaws.decode-append s.encoded rest p u)
    ∙ ap (λ t. ok (s, t)) (drop-length s.encoded rest)

pub read_binary-append :
    (b : MqttBinary) (rest : List ℕ)
    → IsPrefixed b.encoded
    → read_binary (b.encoded ++ rest) ≡ ok (b, rest)
unfolding read_binary
read_binary-append b rest p =
    ap (λ r. advance r (b.encoded ++ rest)) (BinaryLaws.decode-append b.encoded rest p)
    ∙ ap (λ t. ok (b, t)) (drop-length b.encoded rest)

-- Each of the bytes is a code.
abbrev pub all_codes : {Code : Type 0} → (ℕ → Option Code) → List ℕ → Bool
all_codes from_u8 [] = true
all_codes from_u8 (rc ∷ rest) = elim (from_u8 rc) [ none ↦ false | some c ↦ all_codes from_u8 rest ]

pub read_codes_all :
    {Code : Type 0} (from_u8 : ℕ → Option Code) (codes : List ℕ)
    → all_codes from_u8 codes ≡ true
    → read_codes from_u8 codes ≡ ok codes
unfolding read_codes
read_codes_all from_u8 [] h = refl
read_codes_all from_u8 (rc ∷ codes) h = ground (arith, read_codes_all from_u8 codes)

module _ {A : Type 0} (entry : List ℕ → Result (A × ℕ)) (bytes : A → List ℕ) (Ok : A → Type 0)
    (back : (a : A) (rest : List ℕ) → Ok a → entry (bytes a ++ rest) ≡ ok (a, length (bytes a)))
    (pos : (a : A) → Ok a → 1 ≤ length (bytes a)) where
  read_many-step :
      (fuel : ℕ) (bs : List ℕ) (a : A) (n : ℕ) (acc : List A)
      → 1 ≤ length bs
      → entry bs ≡ ok (a, n)
      → read_many entry (suc fuel) bs acc ≡ read_many entry fuel (drop n bs) (acc ++ a ∷ [])
  unfolding read_many
  read_many-step fuel [] a n acc h e = absurd (omega arith)
  read_many-step fuel (b ∷ bs) a n acc h e = rw (e, read_many) refl

  read_many-nil : (fuel : ℕ) (acc : List A) → read_many entry fuel [] acc ≡ some (ok acc)
  unfolding read_many
  read_many-nil zero acc = refl
  read_many-nil (suc fuel) acc = refl

  read_many-acc :
      (xs acc : List A) (fuel : ℕ)
      → All Ok xs
      → length (concat_of bytes xs) ≤ fuel
      → read_many entry fuel (concat_of bytes xs) acc ≡ some (ok (acc ++ xs))
  read_many-acc [] acc fuel v h = read_many-nil fuel acc ∙ rw (append-nil acc) refl
  read_many-acc (a ∷ xs) acc zero (v, vs) h =
      absurd (omega (arith, pos a v, length-append (bytes a) (concat_of bytes xs)))
  read_many-acc (a ∷ xs) acc (suc fuel) (v, vs) h =
      let rest = concat_of bytes xs in
      let l = length-append (bytes a) rest in
      read_many-step fuel (bytes a ++ rest) a (length (bytes a)) acc (omega (arith, pos a v, l))
        (back a rest v)
      ∙ rw (drop-length (bytes a) rest) (
          read_many-acc xs (acc ++ a ∷ []) fuel vs (omega (arith, pos a v, l))
          ∙ rw (append_assoc acc (a ∷ []) xs) refl)

  -- The loop reads what was written one behind the other.
  pub read_many-concat_of :
      (xs : List A)
      → All Ok xs
      → read_many entry (length (concat_of bytes xs)) (concat_of bytes xs) [] ≡ some (ok xs)
  read_many-concat_of xs v = read_many-acc xs [] (length (concat_of bytes xs)) v (omega arith)

pub length-concat_of :
    {A : Type 0} (bytes : A → List ℕ) (size : A → ℕ) (xs : List A)
    → ((a : A) → size a ≡ length (bytes a))
    → length (concat_of bytes xs) ≡ sum_of size xs
length-concat_of bytes size [] h = refl
length-concat_of bytes size (a ∷ xs) h =
    omega
      (arith, h a, length-append (bytes a) (concat_of bytes xs), length-concat_of bytes size xs h)
