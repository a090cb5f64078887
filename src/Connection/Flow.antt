-- ===== src/Connection/Flow.antt =====
-- connection/core.rs: the flow control of version 5.0. The user sends PUBLISH packets while answers to
-- earlier ones are received, in any order.
mod Tests
use mqtt_protocol_core.Common.{true, List, [], ◌∷◌, Option, none, some}
use mqtt_protocol_core.Packet.{Publish, WithId, Pubrec5, Pubcomp5}
use mqtt_protocol_core.Connection.{Connection, and_then}
use mqtt_protocol_core.Connection.Publish.{process_send_v5_0_publish}
use mqtt_protocol_core.Connection.Recv.{
  Parsed, process_recv_v5_0_puback, process_recv_v5_0_pubrec, process_recv_v5_0_pubcomp,
}

-- What happens to the connection: the user sends, or an answer comes, parsed or not.
pub data Step : Type 0 where
  send_publish : Publish → Step
  recv_puback : Parsed WithId → Step
  recv_pubrec : Parsed Pubrec5 → Step
  recv_pubcomp : Parsed Pubcomp5 → Step

-- In a build with overflow checks.
pub take_step : Step → Connection → Option Connection
take_step (send_publish packet) c = process_send_v5_0_publish packet c
take_step (recv_puback parsed) c = process_recv_v5_0_puback true parsed c
take_step (recv_pubrec parsed) c = process_recv_v5_0_pubrec true parsed c
take_step (recv_pubcomp parsed) c = process_recv_v5_0_pubcomp true parsed c

unfoldable pub take_steps : List Step → Connection → Option Connection
unfolding and_then take_step
take_steps [] c = some c
take_steps (step ∷ steps) c = and_then (take_step step c) (λ c₁. take_steps steps c₁)
