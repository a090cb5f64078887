-- ===== src/Wire/Property/Sequence/Total.antt =====
-- packet/property.rs: parsing the properties ends, whatever the bytes are.
use mqtt_protocol_core.Common.{
  ℕ, zero, suc, ◌+◌, ◌≤◌, ◌<◌, ◌≡◌, ◌⊎◌, refl, List, [], ◌∷◌, ◌++◌, Option, none, some, ltb, ◌==◌,
  length, take, drop, arith, Bool-cases, inl, inr,
}
use mqtt_protocol_core.ResultCode.{MqttError, Result, ok, err, malformed_packet}
use mqtt_protocol_core.Vbi.{decode_stream, to_u32}
use mqtt_protocol_core.Vbi
use mqtt_protocol_core.Vbi.Streaming.{decode_stream-ne-panicked}
use mqtt_protocol_core.Wire.Binary
use mqtt_protocol_core.Wire.Text.{MqttString}
use mqtt_protocol_core.Wire.Text
use mqtt_protocol_core.Wire.Property.{
  Property, PropertyId, property_id_from_u8, parse_value, finish, parse_u8, parse_u16, parse_u32,
  parse_variable_integer, parse_string_pair, at_most_one, non_zero, no_validator,
}
use mqtt_protocol_core.Wire.Property
use mqtt_protocol_core.Wire.Property.Sequence.{parse_loop, parse_body, parse}

finish-pos {ℓ} :
    {A : Type ℓ} (f : A → Property) (r : Result (A × ℕ)) (p : Property) (c : ℕ)
    → finish f r ≡ ok (p, c)
    → 1 ≤ c
finish-pos f (ok (a, l)) p c e = ground arith
finish-pos f (err x) p c e = cc

parse_value-pos :
    (i : PropertyId) (bytes : List ℕ) (p : Property) (c : ℕ)
    → parse_value i bytes ≡ ok (p, c)
    → 1 ≤ c
unfolding parse_value
parse_value-pos PropertyId.payload_format_indicator bytes p c e =
    finish-pos Property.payload_format_indicator (parse_u8 at_most_one bytes) p c e
parse_value-pos PropertyId.message_expiry_interval bytes p c e =
    finish-pos Property.message_expiry_interval (parse_u32 no_validator bytes) p c e
parse_value-pos PropertyId.content_type bytes p c e =
    finish-pos Property.content_type (Text.decode bytes) p c e
parse_value-pos PropertyId.response_topic bytes p c e =
    finish-pos Property.response_topic (Text.decode bytes) p c e
parse_value-pos PropertyId.correlation_data bytes p c e =
    finish-pos Property.correlation_data (Binary.decode bytes) p c e
parse_value-pos PropertyId.subscription_identifier bytes p c e =
    finish-pos Property.subscription_identifier (parse_variable_integer non_zero bytes) p c e
parse_value-pos PropertyId.session_expiry_interval bytes p c e =
    finish-pos Property.session_expiry_interval (parse_u32 no_validator bytes) p c e
parse_value-pos PropertyId.assigned_client_identifier bytes p c e =
    finish-pos Property.assigned_client_identifier (Text.decode bytes) p c e
parse_value-pos PropertyId.server_keep_alive bytes p c e =
    finish-pos Property.server_keep_alive (parse_u16 no_validator bytes) p c e
parse_value-pos PropertyId.authentication_method bytes p c e =
    finish-pos Property.authentication_method (Text.decode bytes) p c e
parse_value-pos PropertyId.authentication_data bytes p c e =
    finish-pos Property.authentication_data (Binary.decode bytes) p c e
parse_value-pos PropertyId.request_problem_information bytes p c e =
    finish-pos Property.request_problem_information (parse_u8 at_most_one bytes) p c e
parse_value-pos PropertyId.will_delay_interval bytes p c e =
    finish-pos Property.will_delay_interval (parse_u32 no_validator bytes) p c e
parse_value-pos PropertyId.request_response_information bytes p c e =
    finish-pos Property.request_response_information (parse_u8 at_most_one bytes) p c e
parse_value-pos PropertyId.response_information bytes p c e =
    finish-pos Property.response_information (Text.decode bytes) p c e
parse_value-pos PropertyId.server_reference bytes p c e =
    finish-pos Property.server_reference (Text.decode bytes) p c e
parse_value-pos PropertyId.reason_string bytes p c e =
    finish-pos Property.reason_string (Text.decode bytes) p c e
parse_value-pos PropertyId.receive_maximum bytes p c e =
    finish-pos Property.receive_maximum (parse_u16 non_zero bytes) p c e
parse_value-pos PropertyId.topic_alias_maximum bytes p c e =
    finish-pos Property.topic_alias_maximum (parse_u16 no_validator bytes) p c e
parse_value-pos PropertyId.topic_alias bytes p c e =
    finish-pos Property.topic_alias (parse_u16 non_zero bytes) p c e
parse_value-pos PropertyId.maximum_qos bytes p c e =
    finish-pos Property.maximum_qos (parse_u8 at_most_one bytes) p c e
parse_value-pos PropertyId.retain_available bytes p c e =
    finish-pos Property.retain_available (parse_u8 at_most_one bytes) p c e
parse_value-pos PropertyId.user_property bytes p c e =
    finish-pos (λ (q : MqttString × MqttString). Property.user_property q.0 q.1)
      (parse_string_pair bytes) p c e
parse_value-pos PropertyId.maximum_packet_size bytes p c e =
    finish-pos Property.maximum_packet_size (parse_u32 non_zero bytes) p c e
parse_value-pos PropertyId.wildcard_subscription_available bytes p c e =
    finish-pos Property.wildcard_subscription_available (parse_u8 at_most_one bytes) p c e
parse_value-pos PropertyId.subscription_identifier_available bytes p c e =
    finish-pos Property.subscription_identifier_available (parse_u8 at_most_one bytes) p c e
parse_value-pos PropertyId.shared_subscription_available bytes p c e =
    finish-pos Property.shared_subscription_available (parse_u8 at_most_one bytes) p c e

-- A property that is parsed has consumed a byte at least.
parse-pos : (bs : List ℕ) (p : Property) (c : ℕ) → Property.parse bs ≡ ok (p, c) → 1 ≤ c
unfolding Property.parse
parse-pos [] p c e = cc
parse-pos (b ∷ bs) p c e = go (property_id_from_u8 b) e
  where
    go :
        (i : Option PropertyId)
        → ◌≡◌ {A = Result (Property × ℕ)}
            (elim i [ none ↦ err malformed_packet | some j ↦ parse_value j bs ])
            (ok (p, c))
        → 1 ≤ c
    go none e = cc
    go (some j) e = parse_value-pos j bs p c e

Result-cases {ℓ} :
    {A : Type ℓ} (r : Result A) → ((a : A) × (r ≡ ok a)) ⊎ ((e : MqttError) × (r ≡ err e))
Result-cases (ok a) = inl (a, refl)
Result-cases (err e) = inr (e, refl)

length-drop : (n : ℕ) (xs : List ℕ) → 1 ≤ n → 1 ≤ length xs → length (drop n xs) < length xs
length-drop zero xs h l = absurd (omega arith)
length-drop (suc n) [] h l = absurd (omega arith)
length-drop (suc zero) (x ∷ xs) h l = omega arith
length-drop (suc (suc n)) (x ∷ []) h l = omega arith
length-drop (suc (suc n)) (x ∷ y ∷ xs) h l =
    omega (arith, length-drop (suc n) (y ∷ xs) (omega arith) (omega arith))

-- With a fuel of as many rounds as there are bytes the loop has a result.
parse_loop-total :
    (fuel : ℕ) (bs : List ℕ) (acc : List Property) (cursor : ℕ)
    → length bs ≤ fuel
    → (r : Result (List Property × ℕ)) × (parse_loop fuel bs acc cursor ≡ some r)
unfolding parse_loop
parse_loop-total zero [] acc cursor h = (ok (acc, cursor), refl)
parse_loop-total (suc fuel) [] acc cursor h = (ok (acc, cursor), refl)
parse_loop-total zero (b ∷ bs) acc cursor h = absurd (omega arith)
parse_loop-total (suc fuel) (b ∷ bs) acc cursor h = elim (Result-cases (Property.parse (b ∷ bs))) [
  | inr (e, q) ↦ (err e, rw (q, parse_loop) refl)
  | inl ((p, c), q) ↦
      let (s, t) =
        parse_loop-total fuel (drop c (b ∷ bs)) (acc ++ p ∷ []) (cursor + c)
          (omega (arith, length-drop c (b ∷ bs) (parse-pos (b ∷ bs) p c q) (omega arith))) in
      (s, rw (q, parse_loop) t)
]

length-take : (n : ℕ) (xs : List ℕ) → length (take n xs) ≤ n
length-take zero xs = omega arith
length-take (suc n) [] = omega arith
length-take (suc n) (x ∷ xs) = omega (arith, length-take n xs)

parse_body-total :
    (prop_len consumed : ℕ) (bs : List ℕ)
    → (r : Result (List Property × ℕ)) × (parse_body prop_len consumed bs ≡ some r)
unfolding parse_body
parse_body-total prop_len consumed bs = elim (Bool-cases (prop_len == 0)) [
  | inl z ↦ (ok ([], consumed), rw z refl)
  | inr nz ↦ elim (Bool-cases (ltb (length bs) (consumed + prop_len))) [
    | inl short ↦ (err malformed_packet, rw (nz, short) refl)
    | inr long ↦
        let (r, e) =
          parse_loop-total prop_len (take prop_len (drop consumed bs)) [] consumed
            (length-take prop_len (drop consumed bs)) in
        (r, rw (nz, long) e)
  ]
]

-- Whatever the bytes are, parsing the properties of a packet ends without a panic, with the
-- properties or an error.
pub parse-total : (bs : List ℕ) → (r : Result (List Property × ℕ)) × (parse bs ≡ some r)
unfolding parse
parse-total [] = (err malformed_packet, refl)
parse-total (b ∷ bs) = go (decode_stream (b ∷ bs)) refl
  where
    go :
        (d : Vbi.DecodeResult)
        → decode_stream (b ∷ bs) ≡ d
        → (r : Result (List Property × ℕ)) × (parse (b ∷ bs) ≡ some r)
    go (Vbi.ok vbi n) q =
        let (r, e) = parse_body-total (to_u32 vbi) n (b ∷ bs) in (r, rw (q, parse) e)
    go Vbi.incomplete q = (err malformed_packet, rw (q, parse) refl)
    go (Vbi.err x) q = (err malformed_packet, rw (q, parse) refl)
    go Vbi.panicked q = absurd (decode_stream-ne-panicked (b ∷ bs) q)
