-- ===== src/V5_0/Tail/Laws.antt =====
-- packet/v5_0: a valid tail is read back.
use mathlib.Core.List.{append-nil}
use mqtt_protocol_core.Common.{
  ℕ, ◌+◌, ◌≤◌, ◌≡◌, refl, sym, ap, ◌∙◌, Bool, true, false, List, [], ◌∷◌, ◌++◌, Option, none, some,
  length, arith, All, length-append, Option-cases, inl, inr,
}
use mqtt_protocol_core.ResultCode.{Result, ok}
use mqtt_protocol_core.Vbi.{max_value}
use mqtt_protocol_core.Vbi.Encoding.{bytes, bytes-pos}
use mqtt_protocol_core.Wire.Property.{Property}
use mqtt_protocol_core.Wire.Property.Laws as PropertyLaws
use mqtt_protocol_core.Wire.Property.Sequence
use mqtt_protocol_core.Wire.Property.Sequence.Laws.{parse-encoded, length-sequence}
use mqtt_protocol_core.Codec.{◌>>=◌, pass, vbi, vbi-bytes}
use mqtt_protocol_core.V5_0.Tail.{
  Tail, code_bytes, length_bytes, props_bytes, props_size, tail_size, tail_bytes, read_code,
  read_props, read_tail,
}

length-props_bytes : (ps : Option (List Property)) → props_size ps ≡ length (props_bytes ps)
length-props_bytes none = refl
length-props_bytes (some ps) = sym (length-sequence ps)

module _ {Code : Type 0} (from_u8 : ℕ → Option Code)
    (validate : List Property → Result (Unit {0})) where
  abbrev pub is_code : Option ℕ → Bool
  is_code none = true
  is_code (some rc) = elim (from_u8 rc) [ none ↦ false | some c ↦ true ]

  -- Properties that the constructors and the packet's own check let through, behind their length;
  -- there are none without a code.
  abbrev pub AreProps : Option ℕ → Option (List ℕ) → Option (List Property) → Type 0
  AreProps none none none = Unit
  AreProps (some rc) none none = Unit
  AreProps (some rc) (some encoded) (some ps) =
      (encoded ≡ bytes (Sequence.size ps))
      × All PropertyLaws.IsValid ps
      × (Sequence.size ps ≤ max_value)
      × (validate ps ≡ ok tt)
  AreProps code encoded ps = ⊥

  pub record IsTail (t : Tail) : Type 0 where
    pub known : is_code t.reason_code_buf ≡ true
    pub props_lem : AreProps t.reason_code_buf t.property_length t.props

  read_props-cons :
      (rc : ℕ) (bs : List ℕ) (r : Option (Result (List Property × ℕ)))
      → 1 ≤ length bs
      → Sequence.parse bs ≡ r
      → read_props validate (some rc) bs ≡ (
          r >>= λ parsed. some (validate parsed.0) >>= λ u.
          vbi (Sequence.size parsed.0) >>= λ prop_len. pass (
            record {
              reason_code_buf = some rc;
              property_length = some prop_len;
              props = some parsed.0;
            },
            parsed.1,
          ))
  unfolding read_props
  read_props-cons rc [] r h e = absurd (omega arith)
  read_props-cons rc (b ∷ bs) r h e = rw e refl

  read_props-bytes :
      (code : Option ℕ) (encoded : Option (List ℕ)) (ps : Option (List Property))
      → AreProps code encoded ps
      → read_props validate code (length_bytes encoded ++ props_bytes ps)
        ≡ some (
            ok (
              record { reason_code_buf = code; property_length = encoded; props = ps },
              length (length_bytes encoded ++ props_bytes ps),
            ))
  unfolding read_props
  read_props-bytes none none none a = refl
  read_props-bytes (some rc) none none a = refl
  read_props-bytes none none (some ps) a = absurd a
  read_props-bytes none (some l) none a = absurd a
  read_props-bytes none (some l) (some ps) a = absurd a
  read_props-bytes (some rc) none (some ps) a = absurd a
  read_props-bytes (some rc) (some l) none a = absurd a
  read_props-bytes (some rc) (some l) (some ps) (e, v, h, k) =
      let enc = Sequence.to_continuous_buffer ps in
      let n = length (bytes (Sequence.size ps)) + Sequence.size ps in
      let s : Sequence.parse (l ++ enc) ≡ some (ok (ps, n)) =
        ap (λ x. Sequence.parse (x ++ enc)) e
        ∙ ap (λ x. Sequence.parse (bytes (Sequence.size ps) ++ x)) (sym (append-nil enc))
        ∙ parse-encoded ps [] v h in
      let m : n ≡ length (l ++ enc) =
        omega (arith, length-append l enc, length-sequence ps, ap (length {0}) e) in
      let p : 1 ≤ length (l ++ enc) =
        omega (arith, length-append l enc, bytes-pos (Sequence.size ps), ap (length {0}) e) in
      read_props-cons rc (l ++ enc) (some (ok (ps, n))) p s
      ∙ rw (k, vbi-bytes (Sequence.size ps) h, m, e) refl

  with_size : Tail → ℕ → Option (Result (Tail × ℕ))
  with_size t n = some (ok (t, n))

  read_tail-parts :
      (code : Option ℕ) (encoded : Option (List ℕ)) (ps : Option (List Property))
      → is_code code ≡ true
      → AreProps code encoded ps
      → read_tail from_u8 validate (code_bytes code ++ (length_bytes encoded ++ props_bytes ps))
        ≡ some (
            ok (
              record { reason_code_buf = code; property_length = encoded; props = ps },
              length (code_bytes code ++ (length_bytes encoded ++ props_bytes ps)),
            ))
  unfolding read_tail read_code with_size
  read_tail-parts none none none k a = unfold read_props in refl
  read_tail-parts none none (some ps) k a = absurd a
  read_tail-parts none (some l) none k a = absurd a
  read_tail-parts none (some l) (some ps) k a = absurd a
  read_tail-parts (some rc) encoded ps k a = elim (Option-cases (from_u8 rc)) [
    | inl n ↦ ground arith
    | inr (c, n) ↦
        rw (n, read_props-bytes (some rc) encoded ps a)
          (ap
            (with_size
              (record { reason_code_buf = some rc; property_length = encoded; props = ps }))
            (omega arith))
  ]

  -- A valid tail is read back from what is written of it.
  pub read_tail-tail_bytes :
      (t : Tail)
      → IsTail t
      → read_tail from_u8 validate (tail_bytes t) ≡ some (ok (t, length (tail_bytes t)))
  read_tail-tail_bytes t v =
      read_tail-parts t.reason_code_buf t.property_length t.props v.known v.props_lem

  -- The sizes that the packets add up are those of what is written.
  pub tail_size-tail_bytes : (t : Tail) → IsTail t → tail_size t ≡ length (tail_bytes t)
  tail_size-tail_bytes t v = ground (
    arith,
    length-append (code_bytes t.reason_code_buf)
        (length_bytes t.property_length ++ props_bytes t.props),
    length-append (length_bytes t.property_length) (props_bytes t.props),
    length-props_bytes t.props,
  )
