-- ===== src/Ocpp/Config.antt =====
-- The package config of backend/services/ocpp-server.
use drive_power.Prelude.{ℤ, pos, ◌*◌, String, ◌==◌, string_eq}
use drive_power.Go.Texts.{trim_space}
use drive_power.Config.Model.{Fields, no_fields, Outcome, loaded, Variables, Deps}
use drive_power.Config.Loader.{load_config}
use drive_power.Config.Values.{
  text_field, int_field, section_field, text_at, int_at, address, refuse_if, after_loading, second,
  duration,
}

module _ {R : Type 0} where
  -- What Load starts from.
  unfoldable pub defaults : Fields R
  defaults = section_field "HTTP" (text_field "Port" "OCPP_HTTP_PORT" "8081" no_fields) (
      section_field "Database" (text_field "DSN" "OCPP_POSTGRES_DSN" "" no_fields) (
        section_field "Services"
          (text_field "SessionsURL" "SESSIONS_SERVICE_URL" "" (
            text_field "BillingURL" "BILLING_SERVICE_URL" ""
              (text_field "TelemetryURL" "TELEMETRY_SERVICE_URL" "" no_fields)))
          (section_field "WebSocket"
            (int_field "PingIntervalSeconds" "OCPP_PING_INTERVAL" (pos 30)
              (int_field "WriteTimeoutSeconds" "OCPP_WRITE_TIMEOUT" (pos 15) no_fields))
            (no_fields))))

  unfoldable pub load : Deps R → Variables → Outcome (Fields R)
  load deps vars =
      after_loading
        (λ cfg.
          refuse_if (trim_space (text_at "Database" "DSN" cfg) == "")
            "config: database DSN is required" (loaded cfg))
        (load_config deps vars defaults)

  unfoldable pub http_address : Fields R → String
  http_address cfg = address "8081" cfg

  unfoldable pub ping_interval : Fields R → ℤ
  ping_interval cfg =
      duration second (pos (30 * second)) (int_at "WebSocket" "PingIntervalSeconds" cfg)

  unfoldable pub write_timeout : Fields R → ℤ
  write_timeout cfg =
      duration second (pos (15 * second)) (int_at "WebSocket" "WriteTimeoutSeconds" cfg)
