-- ===== src/Builder/Tests.antt =====
-- Runs of connection/packet_builder.rs, and its theorems at concrete inputs.
use mqtt_protocol_core.Common.{ℕ, ◌≡◌, refl, List, [], ◌∷◌, ◌++◌, some, arith}
use mqtt_protocol_core.Builder.{
  complete, incomplete, error, new, feed_loop, length_step, payload_step, finish, feed,
}
use mqtt_protocol_core.Builder.Payload.{payload_at, IsPartial, in_header}
use mqtt_protocol_core.Builder.Chunks.{feed-append}
use mqtt_protocol_core.Builder.Framing.{packet, feed-packet, feed_long}
use mqtt_protocol_core.Vbi.Encoding.{bytes}
use mqtt_protocol_core.ResultCode.{malformed_packet}

-- A PUBACK of four bytes, its last byte missing.
puback_cut :
    feed new (0x40 ∷ 2 ∷ 0 ∷ []) ≡ some (incomplete, payload_at (0x40 ∷ 2 ∷ []) 1 128 (0 ∷ []), [])
unfolding feed feed_loop length_step payload_step finish
puback_cut = refl

feed-append_example :
    (◌≡◌ {A = List ℕ} [] [])
    × IsPartial (payload_at (0x40 ∷ 2 ∷ []) 1 128 (0 ∷ []))
    × (feed new (0x40 ∷ 2 ∷ 0 ∷ 7 ∷ []) ≡ feed (payload_at (0x40 ∷ 2 ∷ []) 1 128 (0 ∷ [])) (7 ∷ []))
feed-append_example =
    feed-append (0x40 ∷ 2 ∷ 0 ∷ []) (7 ∷ []) [] new _ (in_header refl) (λ e. cc) puback_cut

feed-packet_example :
    feed new (0x40 ∷ (bytes 2 ++ ((0 ∷ 7 ∷ []) ++ 0xD0 ∷ [])))
    ≡ some (complete (packet 0x40 (0 ∷ 7 ∷ [])), new, 0xD0 ∷ [])
feed-packet_example = feed-packet 0x40 (0 ∷ 7 ∷ []) (0xD0 ∷ []) (omega arith)

feed_long_example : feed new (0x30 ∷ (bytes 2097152 ++ [])) ≡ some (error malformed_packet, new, [])
feed_long_example = feed_long 0x30 2097152 [] (omega arith) (omega arith)
