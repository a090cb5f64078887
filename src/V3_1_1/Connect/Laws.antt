-- ===== src/V3_1_1/Connect/Laws.antt =====
-- packet/v3_1_1/connect.rs: valid packets, and the round trip.
use mathlib.Core.List.{append_assoc, append-nil}
use mqtt_protocol_core.Common.{
  ℕ, ◌+◌, ◌-◌, ◌≤◌, ◌≡◌, refl, sym, ap, ◌∙◌, Bool, true, false, not, List, [], ◌∷◌, ◌++◌, some,
  length, arith, ◌&&◌,
}
use mqtt_protocol_core.ResultCode.{ok, bad_user_name_or_password, client_identifier_not_valid}
use mqtt_protocol_core.Vbi.{max_value}
use mqtt_protocol_core.Vbi.Encoding.{bytes}
use mqtt_protocol_core.Wire.Text.{MqttString}
use mqtt_protocol_core.Wire.Binary.{MqttBinary}
use mqtt_protocol_core.Wire.Binary.Laws.{IsPrefixed}
use mqtt_protocol_core.Wire.Property.Laws.{IsText}
use mqtt_protocol_core.Codec.{vbi-bytes, map_err}
use mqtt_protocol_core.Codec.Laws.{read_text-append, read_binary-append}
use mqtt_protocol_core.V3_1_1.Connect.{
  Connect, no_text, no_binary, mqtt_name, will_bit, user_name_bit, password_bit, optional, payload,
  body, read_will, read_user_name, read_password, parse_payload, parse_level, parse,
}

-- A text or a binary is there if its bit is set, and the default else.
abbrev pub IsOptionalText : Bool → MqttString → Type 0
IsOptionalText false s = s ≡ no_text
IsOptionalText true s = IsText s

abbrev pub IsOptionalBinary : Bool → MqttBinary → Type 0
IsOptionalBinary false b = b ≡ no_binary
IsOptionalBinary true b = IsPrefixed b.encoded

pub record IsValid (p : Connect) : Type 0 where
  pub header_lem : p.fixed_header ≡ 0x10
  pub name : p.protocol_name ≡ mqtt_name
  pub level : p.protocol_version_buf ≡ 4
  pub client : IsText p.client_id_buf
  pub will_topic_lem : IsOptionalText (will_bit p.connect_flags_buf) p.will_topic_buf
  pub will_payload_lem : IsOptionalBinary (will_bit p.connect_flags_buf) p.will_payload_buf
  pub user : IsOptionalText (user_name_bit p.connect_flags_buf) p.user_name_buf
  pub secret : IsOptionalBinary (password_bit p.connect_flags_buf) p.password_buf
  pub both : (password_bit p.connect_flags_buf && not (user_name_bit p.connect_flags_buf)) ≡ false
  pub framed : p.remaining_length ≡ bytes (length (body p))

read_will-optional :
    (b : Bool) (t : MqttString) (m : MqttBinary) (rest : List ℕ)
    → IsOptionalText b t
    → IsOptionalBinary b m
    → read_will b (optional b (t.encoded ++ m.encoded) ++ rest) ≡ some (ok ((t, m), rest))
unfolding read_will
read_will-optional false t m rest e f = rw (e, f) refl
read_will-optional true t m rest e f =
    rw
      (
        append_assoc t.encoded m.encoded rest,
        read_text-append t (m.encoded ++ rest) e,
        read_binary-append m rest f,
      )
      refl

read_user_name-optional :
    (b : Bool) (s : MqttString) (rest : List ℕ)
    → IsOptionalText b s
    → read_user_name b (optional b s.encoded ++ rest) ≡ some (ok (s, rest))
unfolding read_user_name
read_user_name-optional false s rest e = rw e refl
read_user_name-optional true s rest e = rw (read_text-append s rest e) refl

read_password-optional :
    (b : Bool) (s : MqttBinary)
    → IsOptionalBinary b s
    → read_password b (optional b s.encoded) ≡ some (ok (s, []))
unfolding read_password
read_password-optional false s e = rw e refl
read_password-optional true s e =
    ap (λ bs. read_password true bs) (sym (append-nil s.encoded))
    ∙ ap (λ r. some (map_err bad_user_name_or_password r)) (read_binary-append s [] e)

parse_payload-payload :
    (p : Connect)
    → IsValid p
    → length (body p) ≤ max_value
    → parse_payload (length (body p)) p.connect_flags_buf p.keep_alive_buf (payload p)
      ≡ some (ok (p, length (body p)))
unfolding parse_payload
parse_payload-payload p v h =
    let wb = will_bit p.connect_flags_buf in
    let ub = user_name_bit p.connect_flags_buf in
    let pb = password_bit p.connect_flags_buf in
    let r₂ = optional pb p.password_buf.encoded in
    let r₁ = optional ub p.user_name_buf.encoded ++ r₂ in
    let r₀ = optional wb (p.will_topic_buf.encoded ++ p.will_payload_buf.encoded) ++ r₁ in
    let c =
      ap (map_err client_identifier_not_valid) (read_text-append p.client_id_buf r₀ v.client) in
    let w =
      read_will-optional wb p.will_topic_buf p.will_payload_buf r₁ v.will_topic_lem
        v.will_payload_lem in
    let u = read_user_name-optional ub p.user_name_buf r₂ v.user in
    let s = read_password-optional pb p.password_buf v.secret in
    let n = length (body p) in
    let z : n - 0 ≡ n = omega arith in
    rw (c, w, u, s, v.both, z, vbi-bytes n h) (ground (arith, v.framed))

pub parse-body :
    (p : Connect)
    → IsValid p
    → length (body p) ≤ max_value
    → parse (body p) ≡ some (ok (p, length (body p)))
unfolding parse parse_level
parse-body p v h =
    let level_on =
      λ (l : ℕ). l ∷ p.connect_flags_buf ∷ p.keep_alive_buf.0 ∷ p.keep_alive_buf.1 ∷ payload p in
    let rest = level_on p.protocol_version_buf in
    let total : 6 + length rest ≡ length (body p) =
      omega (arith, ap (λ (n : List ℕ). length (n ++ rest)) v.name) in
    ap (λ n. parse (n ++ rest)) v.name
    ∙ ap (λ l. parse_level (6 + length rest) (level_on l)) v.level
    ∙ ap (λ t. parse_payload t p.connect_flags_buf p.keep_alive_buf (payload p)) total
    ∙ parse_payload-payload p v h
