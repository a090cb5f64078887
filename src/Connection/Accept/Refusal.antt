-- ===== src/Connection/Accept/Refusal.antt =====
-- connection/core.rs: a CONNECT with Topic Alias Maximum 0.
use mqtt_protocol_core.Common.{
  ◌≡◌, refl, true, List, [], ◌∷◌, ◌++◌, Option, none, inl, inr, Option-cases,
}
use mqtt_protocol_core.Packet.{Connect}
use mqtt_protocol_core.Wire.Property.{Property, topic_alias_maximum}
use mqtt_protocol_core.ResultCode.{ok}
use mqtt_protocol_core.TopicAlias.Send.Laws.{new-zero}
use mqtt_protocol_core.Connection.{Connection, and_then, is_disconnected}
use mqtt_protocol_core.Connection.Accept.{
  apply_received_connect_prop, apply_received_connect_props, serve_v5_0, process_recv_v5_0_connect,
}

apply-zero :
    (ps qs : List Property) (c : Connection)
    → apply_received_connect_props (ps ++ topic_alias_maximum 0 ∷ qs) c ≡ none
unfolding apply_received_connect_props apply_received_connect_prop and_then
apply-zero [] qs c = rw (new-zero, and_then) refl
apply-zero (p ∷ ps) qs c = elim (Option-cases (apply_received_connect_prop p c)) [
  | inl e ↦ rw (e, and_then) refl
  | inr (d, e) ↦ rw (e, and_then) (apply-zero ps qs d)
]

zero-then :
    (ps qs : List Property) (properties : List Property) (b : Connection)
    (k : Connection → Option Connection)
    → properties ≡ ps ++ topic_alias_maximum 0 ∷ qs
    → and_then (apply_received_connect_props properties b) k ≡ none
unfolding and_then
zero-then ps qs properties b k e = rw (e, apply-zero ps qs b) refl

-- A CONNECT of version 5.0 with Topic Alias Maximum 0 among its properties, which the protocol
-- allows, makes the server panic.
pub connect-zero :
    (c : Connection) (packet : Connect) (ps qs : List Property)
    → is_disconnected c ≡ true
    → packet.props ≡ ps ++ topic_alias_maximum 0 ∷ qs
    → process_recv_v5_0_connect (ok packet) c ≡ none
unfolding process_recv_v5_0_connect serve_v5_0
connect-zero c packet ps qs d e = rw d (zero-then ps qs packet.props _ _ e)
