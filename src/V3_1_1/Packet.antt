-- ===== src/V3_1_1/Packet.antt =====
-- packet/enum_packet.rs and connection/core.rs: any packet of version 3.1.1, written by its own
-- `to_continuous_buffer` and read by the `parse` that the type in the fixed header selects.
pub mod Transport
use mqtt_protocol_core.Common.{
  ℕ, ◌+◌, ◌/◌, ◌%◌, ◌≤◌, ◌≡◌, refl, List, [], ◌∷◌, ◌++◌, Option, none, some, length, ◌==◌,
  if◌then◌else◌,
}
use mqtt_protocol_core.ResultCode.{Result, ok, err, malformed_packet}
use mqtt_protocol_core.Codec.{◌>>=◌, pass, fail}
use mqtt_protocol_core.V3_1_1.Ack.{GenericAck}
use mqtt_protocol_core.V3_1_1.Ack
use mqtt_protocol_core.V3_1_1.Puback
use mqtt_protocol_core.V3_1_1.Pubrec
use mqtt_protocol_core.V3_1_1.Pubrel
use mqtt_protocol_core.V3_1_1.Pubcomp
use mqtt_protocol_core.V3_1_1.Plain.{Plain}
use mqtt_protocol_core.V3_1_1.Plain
use mqtt_protocol_core.V3_1_1.Connack.{Connack}
use mqtt_protocol_core.V3_1_1.Connack
use mqtt_protocol_core.V3_1_1.Suback.{GenericSuback}
use mqtt_protocol_core.V3_1_1.Suback
use mqtt_protocol_core.V3_1_1.Unsuback.{GenericUnsuback}
use mqtt_protocol_core.V3_1_1.Unsuback
use mqtt_protocol_core.V3_1_1.Subscribe.{GenericSubscribe}
use mqtt_protocol_core.V3_1_1.Subscribe
use mqtt_protocol_core.V3_1_1.Unsubscribe.{GenericUnsubscribe}
use mqtt_protocol_core.V3_1_1.Unsubscribe
use mqtt_protocol_core.V3_1_1.Publish.{GenericPublish}
use mqtt_protocol_core.V3_1_1.Publish
use mqtt_protocol_core.V3_1_1.Connect.{Connect}
use mqtt_protocol_core.V3_1_1.Connect

pub data Packet : Type 0 where
  connect : Connect → Packet
  connack : Connack → Packet
  publish : GenericPublish → Packet
  puback pubrec pubrel pubcomp : GenericAck → Packet
  subscribe : GenericSubscribe → Packet
  suback : GenericSuback → Packet
  unsubscribe : GenericUnsubscribe → Packet
  unsuback : GenericUnsuback → Packet
  pingreq pingresp disconnect : Plain → Packet

pub fixed_header : Packet → ℕ
fixed_header (connect p) = p.fixed_header
fixed_header (connack p) = p.fixed_header
fixed_header (publish p) = p.fixed_header
fixed_header (puback p) = p.fixed_header
fixed_header (pubrec p) = p.fixed_header
fixed_header (pubrel p) = p.fixed_header
fixed_header (pubcomp p) = p.fixed_header
fixed_header (subscribe p) = p.fixed_header
fixed_header (suback p) = p.fixed_header
fixed_header (unsubscribe p) = p.fixed_header
fixed_header (unsuback p) = p.fixed_header
fixed_header (pingreq p) = p.fixed_header
fixed_header (pingresp p) = p.fixed_header
fixed_header (disconnect p) = p.fixed_header

-- What each packet writes behind the remaining length.
unfoldable pub body : Packet → List ℕ
body (connect p) = Connect.body p
body (connack p) = Connack.body p
body (publish p) = Publish.body p
body (puback p) = Ack.body p
body (pubrec p) = Ack.body p
body (pubrel p) = Ack.body p
body (pubcomp p) = Ack.body p
body (subscribe p) = Subscribe.body p
body (suback p) = Suback.body p
body (unsubscribe p) = Unsubscribe.body p
body (unsuback p) = Unsuback.body p
body (pingreq p) = []
body (pingresp p) = []
body (disconnect p) = []

pub to_continuous_buffer : Packet → List ℕ
unfolding Connect.to_continuous_buffer Connack.to_continuous_buffer Publish.to_continuous_buffer
    Ack.to_continuous_buffer Subscribe.to_continuous_buffer Suback.to_continuous_buffer
    Unsubscribe.to_continuous_buffer Unsuback.to_continuous_buffer Plain.to_continuous_buffer
to_continuous_buffer (connect p) = Connect.to_continuous_buffer p
to_continuous_buffer (connack p) = Connack.to_continuous_buffer p
to_continuous_buffer (publish p) = Publish.to_continuous_buffer p
to_continuous_buffer (puback p) = Puback.to_continuous_buffer p
to_continuous_buffer (pubrec p) = Pubrec.to_continuous_buffer p
to_continuous_buffer (pubrel p) = Pubrel.to_continuous_buffer p
to_continuous_buffer (pubcomp p) = Pubcomp.to_continuous_buffer p
to_continuous_buffer (subscribe p) = Subscribe.to_continuous_buffer p
to_continuous_buffer (suback p) = Suback.to_continuous_buffer p
to_continuous_buffer (unsubscribe p) = Unsubscribe.to_continuous_buffer p
to_continuous_buffer (unsuback p) = Unsuback.to_continuous_buffer p
to_continuous_buffer (pingreq p) = Plain.to_continuous_buffer p
to_continuous_buffer (pingresp p) = Plain.to_continuous_buffer p
to_continuous_buffer (disconnect p) = Plain.to_continuous_buffer p

-- `Ok((packet, _))` of a `parse`.
abbrev pub wrap : {A : Type 0} → (A → Packet) → Option (Result (A × ℕ)) → Option (Result Packet)
wrap c (some (ok (p, n))) = pass (c p)
wrap c (some (err e)) = fail e
wrap c none = none

-- By the fixed header, whose upper half is the type and whose lower half the flags.
pub parse : ℕ → List ℕ → Option (Result Packet)
parse header bs =
    let t = header / 16 in
    if t == 1
    then wrap connect (Connect.parse bs)
    else if t == 2
    then wrap connack (Connack.parse bs)
    else if t == 3
    then wrap publish (Publish.parse (header % 16) bs)
    else if t == 4
    then wrap puback (Puback.parse bs)
    else if t == 5
    then wrap pubrec (Pubrec.parse bs)
    else if t == 6
    then wrap pubrel (Pubrel.parse bs)
    else if t == 7
    then wrap pubcomp (Pubcomp.parse bs)
    else if t == 8
    then wrap subscribe (Subscribe.parse bs)
    else if t == 9
    then wrap suback (Suback.parse bs)
    else if t == 10
    then wrap unsubscribe (Unsubscribe.parse bs)
    else if t == 11
    then wrap unsuback (Unsuback.parse bs)
    else if t == 12
    then wrap pingreq (Plain.parse 0xC0 bs)
    else if t == 13
    then wrap pingresp (Plain.parse 0xD0 bs)
    else if t == 14
    then wrap disconnect (Plain.parse 0xE0 bs)
    else fail malformed_packet
