-- ===== src/Wire/Property/Sequence/Laws.antt =====
-- packet/property.rs: the loop over the properties ends, and reads back what was written.
use mathlib.Core.List.{append_assoc, append-nil}
use mqtt_protocol_core.Common.{
  ℕ, zero, suc, ◌+◌, ◌≤◌, ◌<◌, ◌≡◌, refl, ap, ◌∙◌, List, [], ◌∷◌, ◌++◌, some, ltb, ◌==◌, length,
  take, drop, All, arith, false, length-append, take-length, drop-length,
}
use mqtt_protocol_core.ResultCode.{ok}
use mqtt_protocol_core.Vbi.{decode_stream, to_u32, max_value}
use mqtt_protocol_core.Vbi
use mqtt_protocol_core.Vbi.Encoding.{bytes, to_u32-bytes, bytes-pos}
use mqtt_protocol_core.Vbi.Streaming.{decode_stream-bytes}
use mqtt_protocol_core.Wire.Property.{
  Property, PropertyId, property_id_from_u8, parse_value, finish,
}
use mqtt_protocol_core.Wire.Property
use mqtt_protocol_core.Wire.Property.Laws.{
  IsValid, parse-to_continuous_buffer, length-to_continuous_buffer,
}
use mqtt_protocol_core.Wire.Property.Sequence.{
  to_continuous_buffer, size, parse_loop, parse_body, parse,
}

-- One round of the loop.
parse_loop-step :
    (fuel : ℕ) (bs : List ℕ) (p : Property) (c : ℕ) (acc : List Property) (cursor : ℕ)
    → Property.parse bs ≡ ok (p, c)
    → parse_loop (suc fuel) bs acc cursor ≡ parse_loop fuel (drop c bs) (acc ++ p ∷ []) (cursor + c)
unfolding parse_loop
parse_loop-step fuel [] p c acc cursor e = unfold Property.parse in cc
parse_loop-step fuel (b ∷ bs) p c acc cursor e = rw (e, parse_loop) refl

size-pos : (p : Property) → 1 ≤ Property.size p
unfolding Property.to_continuous_buffer
size-pos p = omega (arith, length-to_continuous_buffer p)

pub length-sequence : (ps : List Property) → length (to_continuous_buffer ps) ≡ size ps
unfolding to_continuous_buffer size
length-sequence [] = refl
length-sequence (p ∷ ps) = omega (
  arith,
  length-sequence ps,
  length-to_continuous_buffer p,
  length-append (Property.to_continuous_buffer p) (to_continuous_buffer ps),
)

-- The end of the loop.
parse_loop-nil :
    (fuel : ℕ) (acc : List Property) (cursor : ℕ)
    → parse_loop fuel [] acc cursor ≡ some (ok (acc, cursor))
unfolding parse_loop
parse_loop-nil zero acc cursor = refl
parse_loop-nil (suc fuel) acc cursor = refl

-- The loop reads the whole encoding, with a fuel of as many rounds as there are bytes.
parse_loop-encoded :
    (ps acc : List Property) (fuel cursor : ℕ)
    → All IsValid ps
    → size ps ≤ fuel
    → parse_loop fuel (to_continuous_buffer ps) acc cursor ≡ some (ok (acc ++ ps, cursor + size ps))
unfolding size to_continuous_buffer
parse_loop-encoded [] acc fuel cursor v h =
    parse_loop-nil fuel acc cursor
    ∙ rw (append-nil acc) (ap (λ (n : ℕ). some (ok (acc, n))) (omega arith))
parse_loop-encoded (p ∷ ps) acc zero cursor v h = absurd (omega (arith, size-pos p))
parse_loop-encoded (p ∷ ps) acc (suc fuel) cursor (v, vs) h =
    let rest = to_continuous_buffer ps in
    let e : drop (Property.size p) (Property.to_continuous_buffer p ++ rest) ≡ rest =
      rw (← length-to_continuous_buffer p) (drop-length (Property.to_continuous_buffer p) rest) in
    let ih : parse_loop fuel rest (acc ++ p ∷ []) (cursor + Property.size p)
        ≡ some (ok (acc ++ p ∷ ps, cursor + (Property.size p + size ps))) =
      parse_loop-encoded ps (acc ++ p ∷ []) fuel (cursor + Property.size p) vs
        (omega (arith, size-pos p))
      ∙ rw (append_assoc acc (p ∷ []) ps)
          (ap (λ (n : ℕ). some (ok (acc ++ p ∷ ps, n))) (omega arith)) in
    parse_loop-step fuel (Property.to_continuous_buffer p ++ rest) p (Property.size p) acc cursor
      (parse-to_continuous_buffer p rest v)
    ∙ rw e ih

-- Reading the length.
parse-eq-body :
    (bs vbi : List ℕ) (n : ℕ)
    → decode_stream bs ≡ Vbi.ok vbi n
    → 0 < length bs
    → parse bs ≡ parse_body (to_u32 vbi) n bs
unfolding parse
parse-eq-body [] vbi n e h = absurd (omega arith)
parse-eq-body (b ∷ bs) vbi n e h = rw (e, parse) refl

parse_body-encoded :
    (ps : List Property) (prefix rest : List ℕ)
    → All IsValid ps
    → parse_body (size ps) (length prefix) (prefix ++ (to_continuous_buffer ps ++ rest))
      ≡ some (ok (ps, length prefix + size ps))
unfolding parse_body
parse_body-encoded [] prefix rest v = unfold size in ap (λ (n : ℕ). some (ok ([], n))) (omega arith)
parse_body-encoded (p ∷ ps) prefix rest v =
    let buf = to_continuous_buffer (p ∷ ps) in
    let d : drop (length prefix) (prefix ++ (buf ++ rest)) ≡ buf ++ rest =
      drop-length prefix (buf ++ rest) in
    let t : take (size (p ∷ ps)) (buf ++ rest) ≡ buf =
      rw (← length-sequence (p ∷ ps)) (take-length buf rest) in
    let pos : 1 ≤ size (p ∷ ps) = unfold size in omega (arith, size-pos p) in
    let l : length prefix + size (p ∷ ps) ≤ length (prefix ++ (buf ++ rest)) = omega (
      arith,
      length-append prefix (buf ++ rest),
      length-append buf rest,
      length-sequence (p ∷ ps),
    ) in
    let z : (size (p ∷ ps) == 0) ≡ false = ground arith in
    let f : ltb (length (prefix ++ (buf ++ rest))) (length prefix + size (p ∷ ps)) ≡ false =
      ground arith in
    rw (z, f, d, t) (parse_loop-encoded (p ∷ ps) [] (size (p ∷ ps)) (length prefix) v (omega arith))

-- The encoded size, as a variable byte integer, in front of properties that the constructors let
-- through: parsing gives the properties back and consumes exactly these bytes, whatever follows.
pub parse-encoded :
    (ps : List Property) (rest : List ℕ)
    → All IsValid ps
    → size ps ≤ max_value
    → parse (bytes (size ps) ++ (to_continuous_buffer ps ++ rest))
      ≡ some (ok (ps, length (bytes (size ps)) + size ps))
parse-encoded ps rest v h =
    let tail = to_continuous_buffer ps ++ rest in
    parse-eq-body (bytes (size ps) ++ tail) (bytes (size ps)) (length (bytes (size ps)))
      (decode_stream-bytes (size ps) tail h)
      (omega (arith, length-append (bytes (size ps)) tail, bytes-pos (size ps)))
    ∙ rw (to_u32-bytes (size ps) h) (parse_body-encoded ps (bytes (size ps)) rest v)
