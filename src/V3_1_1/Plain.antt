-- ===== src/V3_1_1/Plain.antt =====
-- packet/v3_1_1/pingreq.rs, pingresp.rs and disconnect.rs: packets without content. The three files
-- differ in the fixed header only.
use mqtt_protocol_core.Common.{ℕ, ◌≡◌, List, [], ◌∷◌, Option, some, arith}
use mqtt_protocol_core.ResultCode.{Result, ok}
use mqtt_protocol_core.Vbi.Encoding.{bytes}
use mqtt_protocol_core.Codec.{◌>>=◌, pass, vbi, vbi-bytes, total_size}

pub record Plain : Type 0 where
  pub fixed_header : ℕ
  pub remaining_length : List ℕ

abbrev pub size : Plain → ℕ
size p = total_size p.remaining_length

unfoldable pub to_continuous_buffer : Plain → List ℕ
to_continuous_buffer p = p.fixed_header ∷ p.remaining_length

-- `new`, and `build` of the empty builder.
pub new : ℕ → Option (Result Plain)
new header = do
  remaining_length ← vbi 0
  pass (record { fixed_header = header; remaining_length = remaining_length })

-- The data is not looked at.
pub parse : ℕ → List ℕ → Option (Result (Plain × ℕ))
unfolding new
parse header bs = do p ← new header; pass (p, 0)

pub record IsValid (header : ℕ) (p : Plain) : Type 0 where
  pub header_lem : p.fixed_header ≡ header
  pub framed : p.remaining_length ≡ bytes 0

pub parse-body : (header : ℕ) (p : Plain) → IsValid header p → parse header [] ≡ some (ok (p, 0))
unfolding parse
parse-body header p v = ground (arith, vbi-bytes 0 (omega arith))

pub parse-IsValid :
    (header : ℕ) (bs : List ℕ) (p : Plain) (n : ℕ)
    → parse header bs ≡ some (ok (p, n))
    → IsValid header p
unfolding parse
parse-IsValid header bs p n e = ground (arith, vbi-bytes 0 (omega arith))
