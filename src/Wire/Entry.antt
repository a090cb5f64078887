-- ===== src/Wire/Entry.antt =====
-- packet/sub_entry.rs: the options and the topic filter of one subscription. The masks on the byte of
-- the options are written as arithmetic: bits 0 and 1 are the QoS, 2 and 3 two flags, 4 and 5 the
-- retain handling.
pub mod Laws
use mqtt_protocol_core.Common.{
  ℕ, ◌+◌, ◌-◌, ◌*◌, ◌/◌, ◌%◌, Bool, true, false, not, List, [], ◌∷◌, ◌++◌, Option, none, some, ltb,
  ◌==◌, drop, if◌then◌else◌, first,
}
use mqtt_protocol_core.ResultCode.{Result, ok, err, malformed_packet}
use mqtt_protocol_core.Wire.Text.{MqttString}
use mqtt_protocol_core.Wire.Text

pub record SubOpts : Type 0 where
  pub sub_opts_buf : ℕ

pub new : SubOpts
new = record { sub_opts_buf = 0 }

pub from_u8 : ℕ → Result SubOpts
from_u8 value =
    if not (value / 64 == 0)
    then err malformed_packet
    else if ltb 2 (value % 4)
    then err malformed_packet
    else if ltb 2 (value / 16 % 4)
    then err malformed_packet
    else ok (record { sub_opts_buf = value })

-- The number of the QoS; from 3 on `unreachable!`.
pub qos : SubOpts → Option ℕ
qos o = let q = o.sub_opts_buf % 4 in if ltb 2 q then none else some q

pub set_qos : SubOpts → ℕ → SubOpts
set_qos o q = record { sub_opts_buf = o.sub_opts_buf / 4 * 4 + q }

pub nl : SubOpts → Bool
nl o = o.sub_opts_buf / 4 % 2 == 1

pub set_nl : SubOpts → Bool → SubOpts
set_nl o v = record {
  sub_opts_buf = o.sub_opts_buf / 8 * 8 + (if v then 4 else 0) + o.sub_opts_buf % 4;
}

pub rap : SubOpts → Bool
rap o = o.sub_opts_buf / 8 % 2 == 1

pub set_rap : SubOpts → Bool → SubOpts
set_rap o v = record {
  sub_opts_buf = o.sub_opts_buf / 16 * 16 + (if v then 8 else 0) + o.sub_opts_buf % 8;
}

-- The number of the retain handling; from 3 on `unreachable!`.
pub rh : SubOpts → Option ℕ
rh o = let r = o.sub_opts_buf / 16 % 4 in if ltb 2 r then none else some r

pub set_rh : SubOpts → ℕ → SubOpts
set_rh o r = record { sub_opts_buf = o.sub_opts_buf / 64 * 64 + r * 16 + o.sub_opts_buf % 16 }

pub record SubEntry : Type 0 where
  pub topic_filter : MqttString
  pub sub_opts : SubOpts

pub new_entry : List ℕ → SubOpts → Result SubEntry
new_entry topic_filter opts = elim (Text.new topic_filter) [
  | err e ↦ err e
  | ok t ↦ ok (record { topic_filter = t; sub_opts = opts })
]

pub to_continuous_buffer : SubEntry → List ℕ
to_continuous_buffer e = e.topic_filter.encoded ++ e.sub_opts.sub_opts_buf ∷ []

pub size : SubEntry → ℕ
size e = Text.size e.topic_filter + 1

-- The options behind the topic filter.
pub parse_opts : Option ℕ → MqttString → ℕ → Result (SubEntry × ℕ)
unfolding from_u8
parse_opts none t cursor = err malformed_packet
parse_opts (some value) t cursor = elim (from_u8 value) [
  | err e ↦ err e
  | ok o ↦ ok (record { topic_filter = t; sub_opts = o }, cursor + 1)
]

pub then_opts : Result (MqttString × ℕ) → List ℕ → Result (SubEntry × ℕ)
unfolding parse_opts
then_opts (err e) bs = err e
then_opts (ok (t, consumed)) bs = parse_opts (first (drop consumed bs)) t consumed

pub parse : List ℕ → Result (SubEntry × ℕ)
unfolding then_opts
parse bs = then_opts (Text.decode bs) bs
