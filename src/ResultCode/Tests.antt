-- ===== src/ResultCode/Tests.antt =====
-- The theorem on result_code.rs at a concrete code.
use mqtt_protocol_core.Common.{◌≡◌, refl, some}
use mqtt_protocol_core.ResultCode.{
  DisconnectReasonCode, disconnect_code, mqtt_error_from_u8, mqtt_error_from_disconnect,
  disconnect_from_error,
}
use mqtt_protocol_core.ResultCode.Laws.{disconnect_from_error-mqtt_error_from_disconnect}

disconnect_from_error-mqtt_error_from_disconnect_example :
    (disconnect_from_error (mqtt_error_from_disconnect DisconnectReasonCode.quota_exceeded)
      ≡ DisconnectReasonCode.quota_exceeded)
    × (mqtt_error_from_u8 (disconnect_code DisconnectReasonCode.quota_exceeded)
        ≡ some (mqtt_error_from_disconnect DisconnectReasonCode.quota_exceeded))
unfolding disconnect_code
disconnect_from_error-mqtt_error_from_disconnect_example =
    disconnect_from_error-mqtt_error_from_disconnect DisconnectReasonCode.quota_exceeded refl
