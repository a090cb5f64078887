-- ===== src/V3_1_1/Connect/Builder.antt =====
-- packet/v3_1_1/connect.rs: the builder of CONNECT.
use mathlib.Core.Option
use mqtt_protocol_core.Common.{
  ℕ, ◌+◌, ◌-◌, ◌^◌, Bool, true, false, List, Option, none, some, ◌||◌, ◌&&◌, not, if◌then◌else◌,
}
use mqtt_protocol_core.ResultCode.{Result, ok, err, malformed_packet, protocol_error}
use mqtt_protocol_core.Wire.Binary.{MqttBinary}
use mqtt_protocol_core.Wire.Binary
use mqtt_protocol_core.Wire.Text.{MqttString}
use mqtt_protocol_core.Wire.Text
use mqtt_protocol_core.Packet.{Qos, at_most_once, at_least_once, exactly_once}
use mqtt_protocol_core.Codec.{◌>>=◌, pass, vbi, has_bit, id_of}
use mqtt_protocol_core.V3_1_1.Connect.{
  Connect, no_text, no_binary, mqtt_name, will_bit, user_name_bit, password_bit,
}

pub record ConnectBuilder : Type 0 where
  pub connect_flags_buf : Option ℕ
  pub keep_alive_buf : Option (ℕ × ℕ)
  pub client_id_buf : Option MqttString
  pub will_topic_buf : Option MqttString
  pub will_payload_buf : Option MqttBinary
  pub user_name_buf : Option MqttString
  pub password_buf : Option MqttBinary

-- The builder's setters. Bits are set by adding what is missing.
abbrev pub put_bit : ℕ → ℕ → ℕ
put_bit k flags = if has_bit flags k then flags else flags + 2 ^ k

abbrev pub drop_bit : ℕ → ℕ → ℕ
drop_bit k flags = if has_bit flags k then flags - 2 ^ k else flags

pub with_client_id : List ℕ → ConnectBuilder → Result ConnectBuilder
with_client_id id b = elim (Text.new id) [
  | err e ↦ err e
  | ok s ↦ ok (record b { client_id_buf = some s })
]

-- Without flags so far it starts from zero, where the other setters start from the clean session.
pub with_clean_session : Bool → ConnectBuilder → ConnectBuilder
with_clean_session clean b =
    let flags = Option.get_or b.connect_flags_buf 0 in
    record b { connect_flags_buf = some (if clean then put_bit 1 flags else drop_bit 1 flags) }

-- The bits of the QoS are set, and none is cleared.
pub put_will_qos : Qos → ℕ → ℕ
put_will_qos at_most_once flags = flags
put_will_qos at_least_once flags = put_bit 3 flags
put_will_qos exactly_once flags = put_bit 4 flags

pub with_will_message : List ℕ → List ℕ → Qos → Bool → ConnectBuilder → Result ConnectBuilder
unfolding put_will_qos
with_will_message topic message qos retain b = elim (Text.new topic) [
  | err e ↦ err e
  | ok t ↦ elim (Binary.new message) [
    | err e ↦ err e
    | ok m ↦
        (let flags = put_will_qos qos (put_bit 2 (Option.get_or b.connect_flags_buf 2)) in
          ok (record b {
            will_topic_buf = some t;
            will_payload_buf = some m;
            connect_flags_buf = some (if retain then put_bit 5 flags else flags);
          }))
  ]
]

pub with_user_name : List ℕ → ConnectBuilder → Result ConnectBuilder
with_user_name name b = elim (Text.new name) [
  | err e ↦ err e
  | ok s ↦ ok (record b {
    user_name_buf = some s;
    connect_flags_buf = some (put_bit 7 (Option.get_or b.connect_flags_buf 2));
  })
]

pub with_password : List ℕ → ConnectBuilder → Result ConnectBuilder
with_password pwd b = elim (Binary.new pwd) [
  | err e ↦ err e
  | ok s ↦ ok (record b {
    password_buf = some s;
    connect_flags_buf = some (put_bit 6 (Option.get_or b.connect_flags_buf 2));
  })
]

pub with_keep_alive : ℕ → ConnectBuilder → ConnectBuilder
with_keep_alive seconds b = record b { keep_alive_buf = some (id_of seconds) }

pub is_given : {A : Type 0} → Option A → Bool
is_given none = false
is_given (some a) = true

pub validate : ConnectBuilder → Result ℕ
unfolding is_given
validate b =
    let flags = Option.get_or b.connect_flags_buf 2 in
    if password_bit flags && not (user_name_bit flags)
    then err protocol_error
    else if will_bit flags && (not (is_given b.will_topic_buf) || not (is_given b.will_payload_buf))
    then err malformed_packet
    else ok flags

pub build : ConnectBuilder → Option (Result Connect)
unfolding validate
build b =
    let client = Option.get_or b.client_id_buf no_text in
    let topic = Option.get_or b.will_topic_buf no_text in
    let message = Option.get_or b.will_payload_buf no_binary in
    let name = Option.get_or b.user_name_buf no_text in
    let secret = Option.get_or b.password_buf no_binary in
    do
      flags ← some (validate b)
      remaining_length ← vbi (
          10
          + Text.size client
          + (if will_bit flags then Text.size topic + Binary.size message else 0)
          + (if user_name_bit flags then Text.size name else 0)
          + (if password_bit flags then Binary.size secret else 0))
      pass (record {
        fixed_header = 0x10;
        remaining_length = remaining_length;
        protocol_name = mqtt_name;
        protocol_version_buf = 4;
        connect_flags_buf = flags;
        keep_alive_buf = Option.get_or b.keep_alive_buf (0, 0);
        client_id_buf = client;
        will_topic_buf = topic;
        will_payload_buf = message;
        user_name_buf = name;
        password_buf = secret;
      })
