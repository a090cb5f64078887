-- ===== src/V3_1_1/Connect.antt =====
-- packet/v3_1_1/connect.rs. The bits of the connect flags are read as arithmetic: 7 is the user name, 6
-- the password, 5 the will's RETAIN, 3 and 4 its QoS, 2 the will, 1 the clean session.
pub mod Laws
pub mod Builder
use mathlib.Core.Option
use mqtt_protocol_core.Common.{
  ℕ, ◌+◌, ◌-◌, ◌*◌, ◌/◌, ◌%◌, ◌^◌, Bool, true, false, List, [], ◌∷◌, ◌++◌, Option, none, some,
  length, ◌==◌, ltb, ◌||◌, ◌&&◌, not, if◌then◌else◌,
}
use mqtt_protocol_core.ResultCode.{
  Result, ok, err, malformed_packet, protocol_error, unsupported_protocol_version,
  client_identifier_not_valid, bad_user_name_or_password,
}
use mqtt_protocol_core.Wire.Binary.{MqttBinary, be_u16, as_slice}
use mqtt_protocol_core.Wire.Binary
use mqtt_protocol_core.Wire.Text.{MqttString, as_str}
use mqtt_protocol_core.Wire.Text
use mqtt_protocol_core.Codec.{
  ◌>>=◌, pass, fail, vbi, total_size, has_bit, read_text, read_binary, map_err, id_of,
}

pub record Connect : Type 0 where
  pub fixed_header : ℕ
  pub remaining_length : List ℕ
  pub protocol_name : List ℕ
  pub protocol_version_buf : ℕ
  pub connect_flags_buf : ℕ
  pub keep_alive_buf : ℕ × ℕ
  pub client_id_buf : MqttString
  pub will_topic_buf : MqttString
  pub will_payload_buf : MqttBinary
  pub user_name_buf : MqttString
  pub password_buf : MqttBinary

-- The defaults, an empty text behind its length.
abbrev pub no_text : MqttString
no_text = record { encoded = 0 ∷ 0 ∷ [] }

abbrev pub no_binary : MqttBinary
no_binary = record { encoded = 0 ∷ 0 ∷ [] }

abbrev pub mqtt_name : List ℕ
mqtt_name = 0 ∷ 4 ∷ 77 ∷ 81 ∷ 84 ∷ 84 ∷ []

abbrev pub clean_flag : ℕ → Bool
clean_flag flags = has_bit flags 1

abbrev pub will_bit : ℕ → Bool
will_bit flags = has_bit flags 2

abbrev pub password_bit : ℕ → Bool
password_bit flags = has_bit flags 6

abbrev pub user_name_bit : ℕ → Bool
user_name_bit flags = has_bit flags 7

pub clean_session : Connect → Bool
clean_session p = clean_flag p.connect_flags_buf

pub keep_alive : Connect → ℕ
keep_alive p = be_u16 p.keep_alive_buf.0 p.keep_alive_buf.1

pub client_id : Connect → List ℕ
client_id p = as_str p.client_id_buf

pub will_topic : Connect → Option (List ℕ)
will_topic p = if will_bit p.connect_flags_buf then some (as_str p.will_topic_buf) else none

pub will_payload : Connect → Option (List ℕ)
will_payload p = if will_bit p.connect_flags_buf then some (as_slice p.will_payload_buf) else none

pub user_name : Connect → Option (List ℕ)
user_name p = if user_name_bit p.connect_flags_buf then some (as_str p.user_name_buf) else none

pub password : Connect → Option (List ℕ)
password p = if password_bit p.connect_flags_buf then some (as_slice p.password_buf) else none

abbrev pub size : Connect → ℕ
size p = total_size p.remaining_length

-- A field that is written if its bit is set.
abbrev pub optional : Bool → List ℕ → List ℕ
optional false bs = []
optional true bs = bs

abbrev pub payload : Connect → List ℕ
payload p =
    p.client_id_buf.encoded
    ++ (optional (will_bit p.connect_flags_buf)
          (p.will_topic_buf.encoded ++ p.will_payload_buf.encoded)
        ++ (optional (user_name_bit p.connect_flags_buf) p.user_name_buf.encoded
            ++ optional (password_bit p.connect_flags_buf) p.password_buf.encoded))

-- What follows the remaining length.
abbrev pub body : Connect → List ℕ
body p =
    p.protocol_name
    ++ p.protocol_version_buf
      ∷ p.connect_flags_buf
      ∷ p.keep_alive_buf.0
      ∷ p.keep_alive_buf.1
      ∷ payload p

unfoldable pub to_continuous_buffer : Connect → List ℕ
to_continuous_buffer p = p.fixed_header ∷ (p.remaining_length ++ body p)

-- The will, if its bit is set.
pub read_will : Bool → List ℕ → Option (Result ((MqttString × MqttBinary) × List ℕ))
read_will false bs = pass ((no_text, no_binary), bs)
read_will true bs = do
  topic ← some (read_text bs)
  message ← some (read_binary topic.1)
  pass ((topic.0, message.0), message.1)

pub read_user_name : Bool → List ℕ → Option (Result (MqttString × List ℕ))
read_user_name false bs = pass (no_text, bs)
read_user_name true bs = some (map_err bad_user_name_or_password (read_text bs))

pub read_password : Bool → List ℕ → Option (Result (MqttBinary × List ℕ))
read_password false bs = pass (no_binary, bs)
read_password true bs = some (map_err bad_user_name_or_password (read_binary bs))

-- From the client identifier on; `total` is the length of the data.
pub parse_payload : ℕ → ℕ → ℕ × ℕ → List ℕ → Option (Result (Connect × ℕ))
unfolding read_will read_user_name read_password
parse_payload total flags keep bs = do
  client ← some (map_err client_identifier_not_valid (read_text bs))
  will ← read_will (will_bit flags) client.1
  name ← read_user_name (user_name_bit flags) will.1
  secret ← read_password (password_bit flags) name.1
  if password_bit flags && not (user_name_bit flags) then fail protocol_error else do
    remaining_length ← vbi (total - length secret.1)
    pass (
      record {
        fixed_header = 0x10;
        remaining_length = remaining_length;
        protocol_name = mqtt_name;
        protocol_version_buf = 4;
        connect_flags_buf = flags;
        keep_alive_buf = keep;
        client_id_buf = client.0;
        will_topic_buf = will.0.0;
        will_payload_buf = will.0.1;
        user_name_buf = name.0;
        password_buf = secret.0;
      },
      total - length secret.1,
    )

-- The protocol level, the flags and the keep alive.
pub parse_level : ℕ → List ℕ → Option (Result (Connect × ℕ))
unfolding parse_payload
parse_level total [] = fail malformed_packet
parse_level total (level ∷ rest) =
    if not (level == 4) then fail unsupported_protocol_version else elim rest [
      | flags ∷ hi ∷ lo ∷ bs ↦ parse_payload total flags (hi, lo) bs
      | _ ↦ fail malformed_packet
    ]

pub parse : List ℕ → Option (Result (Connect × ℕ))
unfolding parse_level
parse (a ∷ b ∷ c ∷ d ∷ e ∷ f ∷ rest) =
    if not (a == 0 && b == 4 && c == 77 && d == 81 && e == 84 && f == 84)
    then fail protocol_error
    else parse_level (6 + length rest) rest
parse short = fail malformed_packet
