-- ===== src/ResultCode/Laws.antt =====
-- The conversions of result_code.rs are inverse on the codes that report an error.
use mqtt_protocol_core.Common.{◌≡◌, refl, some, true, leb}
use mqtt_protocol_core.ResultCode.{
  DisconnectReasonCode, disconnect_code, mqtt_error_from_u8, mqtt_error_from_disconnect,
  disconnect_from_error,
}

-- A disconnect code of an error (0x80 and above) survives the way through `MqttError` and back, and
-- the error's own number is that code.
pub disconnect_from_error-mqtt_error_from_disconnect :
    (c : DisconnectReasonCode)
    → leb 0x80 (disconnect_code c) ≡ true
    → (disconnect_from_error (mqtt_error_from_disconnect c) ≡ c)
      × (mqtt_error_from_u8 (disconnect_code c) ≡ some (mqtt_error_from_disconnect c))
unfolding disconnect_code mqtt_error_from_disconnect disconnect_from_error mqtt_error_from_u8
disconnect_from_error-mqtt_error_from_disconnect DisconnectReasonCode.normal_disconnection h = cc
disconnect_from_error-mqtt_error_from_disconnect DisconnectReasonCode.disconnect_with_will_message
      h =
    cc
disconnect_from_error-mqtt_error_from_disconnect _ h = (refl, refl)
