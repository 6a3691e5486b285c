-- ===== src/Gateway/Config.antt =====
-- The package config of backend/services/api-gateway.
use drive_power.Prelude.{ℤ, pos, ◌*◌, String, ◌==◌, string_eq}
use drive_power.Go.Texts.{trim_space}
use drive_power.Config.Model.{Fields, no_fields, Outcome, loaded, Variables, Deps}
use drive_power.Config.Loader.{load_config}
use drive_power.Config.Values.{
  text_field, int_field, section_field, text_at, int_at, address, refuse_if, after_loading, second,
  duration,
}

module _ {R : Type 0} where
  -- What Load starts from.
  unfoldable pub defaults : Fields R
  defaults = section_field "HTTP" (text_field "Port" "API_GATEWAY_HTTP_PORT" "8080" no_fields) (
      section_field "JWT" (text_field "Secret" "API_GATEWAY_JWT_SECRET" "" no_fields) (
        section_field "Services"
          (text_field "AuthURL" "AUTH_SERVICE_URL" "" (
            text_field "SessionsURL" "SESSIONS_SERVICE_URL" "" (
              text_field "BillingURL" "BILLING_SERVICE_URL" ""
                (text_field "StationsURL" "STATIONS_SERVICE_URL" "" no_fields))))
          (section_field "HTTPClient"
            (int_field "TimeoutSeconds" "API_GATEWAY_HTTP_TIMEOUT" (pos 5) no_fields) (no_fields))))

  unfoldable pub load : Deps R → Variables → Outcome (Fields R)
  load deps vars =
      after_loading
        (λ cfg.
          refuse_if (trim_space (text_at "JWT" "Secret" cfg) == "") "config: jwt secret required"
            (loaded cfg))
        (load_config deps vars defaults)

  unfoldable pub http_address : Fields R → String
  http_address cfg = address "8080" cfg

  unfoldable pub http_timeout : Fields R → ℤ
  http_timeout cfg = duration second (pos (5 * second)) (int_at "HTTPClient" "TimeoutSeconds" cfg)
