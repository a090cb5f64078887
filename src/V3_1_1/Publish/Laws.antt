-- ===== src/V3_1_1/Publish/Laws.antt =====
-- packet/v3_1_1/publish.rs: valid packets, and the round trip.
use mqtt_protocol_core.Common.{
  ℕ, ◌+◌, ◌%◌, ◌≤◌, ◌≡◌, refl, Bool, true, false, List, ◌++◌, Option, none, some, length, arith,
  length-append, ◌==◌, if◌then◌else◌,
}
use mqtt_protocol_core.ResultCode.{ok}
use mqtt_protocol_core.Vbi.{max_value}
use mqtt_protocol_core.Vbi.Encoding.{bytes}
use mqtt_protocol_core.Wire.Property.Laws.{IsText}
use mqtt_protocol_core.Codec.{vbi-bytes}
use mqtt_protocol_core.Codec.Laws.{read_text-append}
use mqtt_protocol_core.V3_1_1.Publish.{
  GenericPublish, qos_value, optional_id, id_size, body, split_id, assemble, parse,
}

-- An identifier is there exactly for QoS 1 and 2.
abbrev pub has_id : ℕ → Option (ℕ × ℕ) → Bool
has_id q none = q == 0
has_id q (some id) = if q == 0 then false else true

pub record IsValid (p : GenericPublish) : Type 0 where
  pub header_lem : p.fixed_header ≡ 0x30 + p.fixed_header % 16
  pub qos_lem : (qos_value p.fixed_header == 3) ≡ false
  pub topic : IsText p.topic_name_buf
  pub identified : has_id (qos_value p.fixed_header) p.packet_id_buf ≡ true
  pub framed : p.remaining_length ≡ bytes (length (body p))

length-optional_id : (id : Option (ℕ × ℕ)) → length (optional_id id) ≡ id_size id
length-optional_id none = refl
length-optional_id (some id) = refl

split_id-optional_id :
    (q : ℕ) (id : Option (ℕ × ℕ)) (payload : List ℕ)
    → has_id q id ≡ true
    → split_id q (optional_id id ++ payload) ≡ ok (id, payload)
unfolding split_id
split_id-optional_id q none payload h = ground arith
split_id-optional_id q (some id) payload h = ground arith

assemble-valid :
    (p : GenericPublish)
    → IsValid p
    → length (body p) ≤ max_value
    → assemble p.fixed_header p.topic_name_buf p.packet_id_buf p.payload_buf ≡ some (ok p)
unfolding assemble
assemble-valid p v h = ground (
  arith,
  vbi-bytes (length (body p)) h,
  length-optional_id p.packet_id_buf,
  length-append p.topic_name_buf.encoded (optional_id p.packet_id_buf ++ p.payload_buf),
  length-append (optional_id p.packet_id_buf) p.payload_buf,
)

pub parse-body :
    (p : GenericPublish)
    → IsValid p
    → length (body p) ≤ max_value
    → parse (p.fixed_header % 16) (body p) ≡ some (ok (p, length (body p)))
unfolding parse
parse-body p v h =
    let q : qos_value (p.fixed_header % 16) ≡ qos_value p.fixed_header = omega arith in
    ground (
      arith,
      q,
      v.header_lem,
      v.qos_lem,
      assemble-valid p v h,
      read_text-append p.topic_name_buf (optional_id p.packet_id_buf ++ p.payload_buf) v.topic,
      split_id-optional_id (qos_value p.fixed_header) p.packet_id_buf p.payload_buf v.identified,
    )
