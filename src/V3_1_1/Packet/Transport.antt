-- ===== src/V3_1_1/Packet/Transport.antt =====
-- From a packet of version 3.1.1 to its bytes, through the packet builder, and back to the packet.
use mathlib.Core.List.{append_assoc}
use mqtt_protocol_core.Common.{
  ℕ, ◌/◌, ◌≤◌, ◌<◌, ◌≡◌, ap, ◌∙◌, List, [], ◌∷◌, ◌++◌, some, length, arith,
}
use mqtt_protocol_core.Vbi.{max_value}
use mqtt_protocol_core.Vbi.Encoding.{bytes}
use mqtt_protocol_core.ResultCode.{ok}
use mqtt_protocol_core.ResultCode.Codes.{
  puback_reason_from_u8, pubrec_reason_from_u8, pubrel_reason_from_u8, pubcomp_reason_from_u8,
}
use mqtt_protocol_core.Builder.{RawPacket, complete, feed, new}
use mqtt_protocol_core.Builder.Framing
use mqtt_protocol_core.Builder.Framing.{feed-packet}
use mqtt_protocol_core.Connection.Receive.{data_as_slice}
use mqtt_protocol_core.V3_1_1.Ack
use mqtt_protocol_core.V3_1_1.Ack.Laws as AckLaws
use mqtt_protocol_core.V3_1_1.Plain.{Plain}
use mqtt_protocol_core.V3_1_1.Plain
use mqtt_protocol_core.V3_1_1.Connack
use mqtt_protocol_core.V3_1_1.Suback
use mqtt_protocol_core.V3_1_1.Unsuback
use mqtt_protocol_core.V3_1_1.Subscribe
use mqtt_protocol_core.V3_1_1.Unsubscribe
use mqtt_protocol_core.V3_1_1.Publish
use mqtt_protocol_core.V3_1_1.Publish.Laws as PublishLaws
use mqtt_protocol_core.V3_1_1.Connect
use mqtt_protocol_core.V3_1_1.Connect.Laws as ConnectLaws
use mqtt_protocol_core.V3_1_1.Packet.{
  Packet, connect, connack, publish, puback, pubrec, pubrel, pubcomp, subscribe, suback,
  unsubscribe, unsuback, pingreq, pingresp, disconnect, fixed_header, body, to_continuous_buffer,
  parse, wrap,
}

-- The packets that the builders and parsers make.
unfoldable pub IsValid : Packet → Type 0
IsValid (connect p) = ConnectLaws.IsValid p
IsValid (connack p) = Connack.IsValid p
IsValid (publish p) = PublishLaws.IsValid p
IsValid (puback p) = AckLaws.IsValid 0x40 puback_reason_from_u8 p
IsValid (pubrec p) = AckLaws.IsValid 0x50 pubrec_reason_from_u8 p
IsValid (pubrel p) = AckLaws.IsValid 0x62 pubrel_reason_from_u8 p
IsValid (pubcomp p) = AckLaws.IsValid 0x70 pubcomp_reason_from_u8 p
IsValid (subscribe p) = Subscribe.IsValid p
IsValid (suback p) = Suback.IsValid p
IsValid (unsubscribe p) = Unsubscribe.IsValid p
IsValid (unsuback p) = Unsuback.IsValid p
IsValid (pingreq p) = Plain.IsValid 0xC0 p
IsValid (pingresp p) = Plain.IsValid 0xD0 p
IsValid (disconnect p) = Plain.IsValid 0xE0 p

-- One header, the length of the body, and the body.
frame : ℕ → List ℕ → List ℕ → List ℕ
frame h length_bytes bs = h ∷ (length_bytes ++ bs)

plain :
    (p : Plain)
    → p.remaining_length ≡ bytes 0
    → p.fixed_header ∷ p.remaining_length ≡ frame p.fixed_header (bytes 0) []
unfolding frame bytes
plain p e = ap (◌∷◌ p.fixed_header) e

written :
    (p : Packet)
    → IsValid p
    → to_continuous_buffer p ≡ frame (fixed_header p) (bytes (length (body p))) (body p)
unfolding IsValid to_continuous_buffer fixed_header body frame Ack.to_continuous_buffer
    Plain.to_continuous_buffer
written (connect p) v = ap (λ r. frame p.fixed_header r (Connect.body p)) v.framed
written (connack p) v = ap (λ r. frame p.fixed_header r (Connack.body p)) v.framed
written (publish p) v = ap (λ r. frame p.fixed_header r (Publish.body p)) v.framed
written (puback p) v = ap (λ r. frame p.fixed_header r (Ack.body p)) v.framed
written (pubrec p) v = ap (λ r. frame p.fixed_header r (Ack.body p)) v.framed
written (pubrel p) v = ap (λ r. frame p.fixed_header r (Ack.body p)) v.framed
written (pubcomp p) v = ap (λ r. frame p.fixed_header r (Ack.body p)) v.framed
written (subscribe p) v = ap (λ r. frame p.fixed_header r (Subscribe.body p)) v.framed
written (suback p) v = ap (λ r. frame p.fixed_header r (Suback.body p)) v.framed
written (unsubscribe p) v = ap (λ r. frame p.fixed_header r (Unsubscribe.body p)) v.framed
written (unsuback p) v = ap (λ r. frame p.fixed_header r (Unsuback.body p)) v.framed
written (pingreq p) v = plain p v.framed
written (pingresp p) v = plain p v.framed
written (disconnect p) v = plain p v.framed

parse-body :
    (p : Packet)
    → IsValid p
    → length (body p) ≤ max_value
    → parse (fixed_header p) (body p) ≡ some (ok p)
unfolding IsValid parse fixed_header body
parse-body (connect p) v h =
    ap (λ x. parse x (Connect.body p)) v.header_lem
    ∙ ap (wrap connect) (ConnectLaws.parse-body p v h)
parse-body (connack p) v h =
    ap (λ x. parse x (Connack.body p)) v.header_lem ∙ ap (wrap connack) (Connack.parse-body p v)
parse-body (publish p) v h =
    let t : p.fixed_header / 16 ≡ 3 = omega (arith, v.header_lem) in
    rw (t, parse) (ap (wrap publish) (PublishLaws.parse-body p v h))
parse-body (puback p) v h =
    ap (λ x. parse x (Ack.body p)) v.header_lem
    ∙ ap (wrap puback) (AckLaws.parse-body 0x40 puback_reason_from_u8 p v)
parse-body (pubrec p) v h =
    ap (λ x. parse x (Ack.body p)) v.header_lem
    ∙ ap (wrap pubrec) (AckLaws.parse-body 0x50 pubrec_reason_from_u8 p v)
parse-body (pubrel p) v h =
    ap (λ x. parse x (Ack.body p)) v.header_lem
    ∙ ap (wrap pubrel) (AckLaws.parse-body 0x62 pubrel_reason_from_u8 p v)
parse-body (pubcomp p) v h =
    ap (λ x. parse x (Ack.body p)) v.header_lem
    ∙ ap (wrap pubcomp) (AckLaws.parse-body 0x70 pubcomp_reason_from_u8 p v)
parse-body (subscribe p) v h =
    ap (λ x. parse x (Subscribe.body p)) v.header_lem
    ∙ ap (wrap subscribe) (Subscribe.parse-body p v h)
parse-body (suback p) v h =
    ap (λ x. parse x (Suback.body p)) v.header_lem ∙ ap (wrap suback) (Suback.parse-body p v h)
parse-body (unsubscribe p) v h =
    ap (λ x. parse x (Unsubscribe.body p)) v.header_lem
    ∙ ap (wrap unsubscribe) (Unsubscribe.parse-body p v h)
parse-body (unsuback p) v h =
    ap (λ x. parse x (Unsuback.body p)) v.header_lem ∙ ap (wrap unsuback) (Unsuback.parse-body p v)
parse-body (pingreq p) v h =
    ap (λ x. parse x []) v.header_lem ∙ ap (wrap pingreq) (Plain.parse-body 0xC0 p v)
parse-body (pingresp p) v h =
    ap (λ x. parse x []) v.header_lem ∙ ap (wrap pingresp) (Plain.parse-body 0xD0 p v)
parse-body (disconnect p) v h =
    ap (λ x. parse x []) v.header_lem ∙ ap (wrap disconnect) (Plain.parse-body 0xE0 p v)

data_as_slice-packet : (h : ℕ) (bs : List ℕ) → data_as_slice (Framing.packet h bs) ≡ bs
unfolding data_as_slice
data_as_slice-packet h bs = ground arith

-- Each valid packet of version 3.1.1 with less than 128 ^ 3 bytes behind its length arrives: the
-- builder takes exactly its bytes off the stream, and parsing what it took gives the packet back.
pub feed-to_continuous_buffer :
    (p : Packet) (rest : List ℕ)
    → IsValid p
    → length (body p) < 2097152
    → (r : RawPacket) × (feed new (to_continuous_buffer p ++ rest) ≡ some (complete r, new, rest))
      × (parse r.fixed_header (data_as_slice r) ≡ some (ok p))
unfolding frame
feed-to_continuous_buffer p rest v h =
    let header = fixed_header p in
    let bs = body p in
    (
      Framing.packet header bs,
      ap (λ w. feed new (w ++ rest)) (written p v)
          ∙ ap (λ w. feed new (header ∷ w)) (append_assoc (bytes (length bs)) bs rest)
          ∙ feed-packet header bs rest h,
      ap (parse header) (data_as_slice-packet header bs) ∙ parse-body p v (omega arith),
    )
