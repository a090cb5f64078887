-- ===== src/V5_0/Tail.antt =====
-- packet/v5_0: what the acknowledgements, DISCONNECT and AUTH have behind their fixed part: an optional
-- reason code and, if there is one, optional properties behind their length.
pub mod Laws
use mqtt_protocol_core.Common.{
  ℕ, ◌+◌, Bool, true, false, List, [], ◌∷◌, ◌++◌, Option, none, some, length, ◌==◌, leb, ◌||◌, ◌&&◌,
  drop, if◌then◌else◌,
}
use mqtt_protocol_core.ResultCode.{Result, ok, err, malformed_packet, protocol_error}
use mqtt_protocol_core.Wire.Property.{Property, PropertyId, user_property, property_id, as_u8}
use mqtt_protocol_core.Wire.Property.Sequence
use mqtt_protocol_core.Codec.{◌>>=◌, pass, fail, vbi}

-- The values of `reason_code_buf`, `property_length` and `props`.
pub record Tail : Type 0 where
  pub reason_code_buf : Option ℕ
  pub property_length : Option (List ℕ)
  pub props : Option (List Property)

abbrev pub code_bytes : Option ℕ → List ℕ
code_bytes none = []
code_bytes (some rc) = rc ∷ []

abbrev pub length_bytes : Option (List ℕ) → List ℕ
length_bytes none = []
length_bytes (some encoded) = encoded

abbrev pub props_bytes : Option (List Property) → List ℕ
props_bytes none = []
props_bytes (some props) = Sequence.to_continuous_buffer props

abbrev pub props_size : Option (List Property) → ℕ
props_size none = 0
props_size (some props) = Sequence.size props

-- What is written of them.
abbrev pub tail_bytes : Tail → List ℕ
tail_bytes t =
    code_bytes t.reason_code_buf ++ (length_bytes t.property_length ++ props_bytes t.props)

abbrev pub tail_size : Tail → ℕ
tail_size t =
    length (code_bytes t.reason_code_buf)
    + length (length_bytes t.property_length)
    + props_size t.props

-- How many properties have this identifier.
unfoldable pub count_id : PropertyId → List Property → ℕ
count_id id [] = 0
count_id id (p ∷ ps) =
    if as_u8 (property_id p) == as_u8 id then count_id id ps + 1 else count_id id ps

pub is_one_of : List PropertyId → PropertyId → Bool
is_one_of [] id = false
is_one_of (x ∷ xs) id = as_u8 x == as_u8 id || is_one_of xs id

unfoldable pub all_allowed : List PropertyId → List Property → Bool
unfolding is_one_of
all_allowed ids [] = true
all_allowed ids (p ∷ ps) = is_one_of ids (property_id p) && all_allowed ids ps

unfoldable pub none_twice : List PropertyId → List Property → Bool
unfolding count_id
none_twice [] ps = true
none_twice (id ∷ ids) ps = leb (count_id id ps) 1 && none_twice ids ps

-- The `validate_…_properties` of the packets: these at most once, user properties, and no other.
unfoldable pub once_each : List PropertyId → List Property → Result (Unit {0})
unfolding all_allowed none_twice
once_each ids ps =
    if all_allowed (PropertyId.user_property ∷ ids) ps && none_twice ids ps
    then ok tt
    else err protocol_error

-- The reason code, and the data behind it.
pub read_code : {Code : Type 0} → (ℕ → Option Code) → List ℕ → Result (Option ℕ × List ℕ)
read_code from_u8 [] = ok (none, [])
read_code from_u8 (rc ∷ rest) = elim (from_u8 rc) [
  | none ↦ err malformed_packet
  | some c ↦ ok (some rc, rest)
]

-- The properties, if there is a code and data behind it; and how many bytes they took.
pub read_props :
    (List Property → Result (Unit {0})) → Option ℕ → List ℕ → Option (Result (Tail × ℕ))
read_props validate none rest =
    pass (record { reason_code_buf = none; property_length = none; props = none }, 0)
read_props validate (some rc) [] =
    pass (record { reason_code_buf = some rc; property_length = none; props = none }, 0)
read_props validate (some rc) (b ∷ bs) = do
  parsed ← Sequence.parse (b ∷ bs)
  u ← some (validate parsed.0)
  prop_len ← vbi (Sequence.size parsed.0)
  pass (
    record { reason_code_buf = some rc; property_length = some prop_len; props = some parsed.0 },
    parsed.1,
  )

-- The tail, and how many bytes it took.
pub read_tail :
    {Code : Type 0}
    → (ℕ → Option Code)
    → (List Property → Result (Unit {0}))
    → List ℕ
    → Option (Result (Tail × ℕ))
unfolding read_code read_props
read_tail from_u8 validate bs = do
  code ← some (read_code from_u8 bs)
  tail ← read_props validate code.0 code.1
  pass (tail.0, length (code_bytes code.0) + tail.1)
