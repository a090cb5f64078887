-- ===== src/Wire/Entry/Laws.antt =====
-- packet/sub_entry.rs: a subscription is read back, and each option is set alone.
use mathlib.Core.List.{append_assoc}
use mqtt_protocol_core.Common.{
  refl, ℕ, ◌+◌, ◌≤◌, ◌≡◌, ap, ◌∙◌, List, [], ◌∷◌, ◌++◌, some, length, arith, drop-length,
  length-append, first,
}
use mqtt_protocol_core.ResultCode.{ok}
use mqtt_protocol_core.Wire.Text.{MqttString}
use mqtt_protocol_core.Wire.Text.Laws as TextLaws
use mqtt_protocol_core.Wire.Property.Laws.{IsText}
use mqtt_protocol_core.Wire.Entry.{
  SubOpts, SubEntry, from_u8, set_qos, qos, nl, rap, rh, to_continuous_buffer, size, parse,
  then_opts, parse_opts,
}

-- The options that `from_u8` lets through.
abbrev pub IsOpts : SubOpts → Type 0
IsOpts o = from_u8 o.sub_opts_buf ≡ ok o

unfoldable pub IsEntry : SubEntry → Type 0
IsEntry e = IsText e.topic_filter × IsOpts e.sub_opts

parse_opts_lem :
    (t : MqttString) (o : SubOpts) (n m : ℕ)
    → IsOpts o
    → m ≡ n + 1
    → parse_opts (some o.sub_opts_buf) t n ≡ ok (record { topic_filter = t; sub_opts = o }, m)
unfolding parse_opts
parse_opts_lem t o n m h e = rw (h, parse_opts, e) refl

-- A valid subscription is read back, whatever follows.
pub parse-append :
    (e : SubEntry) (rest : List ℕ)
    → IsEntry e
    → parse (to_continuous_buffer e ++ rest) ≡ ok (e, length (to_continuous_buffer e))
unfolding parse IsEntry IsText to_continuous_buffer then_opts
parse-append e rest ((p, u), o) =
    let E = e.topic_filter.encoded in
    let v = e.sub_opts.sub_opts_buf in
    ap parse (append_assoc E (v ∷ []) rest)
    ∙ ap (λ r. then_opts r (E ++ v ∷ rest)) (TextLaws.decode-append E (v ∷ rest) p u)
    ∙ ap (λ l. parse_opts (first l) e.topic_filter (length E)) (drop-length E (v ∷ rest))
    ∙ parse_opts_lem e.topic_filter e.sub_opts (length E) (length (E ++ v ∷ [])) o
        (length-append E (v ∷ []))

pub length-to_continuous_buffer : (e : SubEntry) → size e ≡ length (to_continuous_buffer e)
unfolding size to_continuous_buffer
length-to_continuous_buffer e =
    omega (arith, length-append e.topic_filter.encoded (e.sub_opts.sub_opts_buf ∷ []))

-- Setting one option of a valid byte leaves it valid, gives the option, and changes no other.
pub set_qos_lem :
    (o : SubOpts) (q : ℕ)
    → IsOpts o
    → q ≤ 2
    → IsOpts (set_qos o q)
      × (qos (set_qos o q) ≡ some q)
      × (nl (set_qos o q) ≡ nl o)
      × (rap (set_qos o q) ≡ rap o)
      × (rh (set_qos o q) ≡ rh o)
unfolding from_u8 set_qos qos nl rap rh
set_qos_lem o q h b = ground arith

pub size-pos : (e : SubEntry) → 1 ≤ length (to_continuous_buffer e)
unfolding to_continuous_buffer
size-pos e = omega (arith, length-append e.topic_filter.encoded (e.sub_opts.sub_opts_buf ∷ []))
