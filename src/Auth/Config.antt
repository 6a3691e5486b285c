-- ===== src/Auth/Config.antt =====
-- The package config of backend/services/auth-service.
use drive_power.Prelude.{ℤ, pos, ◌*◌, String, ◌==◌, string_eq, if◌then◌else◌, leb_ℤ}
use drive_power.Config.Model.{Fields, no_fields, Outcome, loaded, Variables, Deps}
use drive_power.Config.Loader.{load_config}
use drive_power.Config.Values.{
  text_field, int_field, section_field, text_at, int_at, address, refuse_if, after_loading, minute,
  duration, set_int,
}

module _ {R : Type 0} where
  -- What Load starts from.
  unfoldable pub defaults : Fields R
  defaults = section_field "HTTP" (text_field "Port" "AUTH_HTTP_PORT" "8080" no_fields) (
      section_field "Database" (text_field "DSN" "AUTH_POSTGRES_DSN" "" no_fields) (
        section_field "JWT"
          (text_field "Secret" "AUTH_JWT_SECRET" ""
            (int_field "ExpiresInMinutes" "AUTH_JWT_EXPIRES_MINUTES" (pos 60) no_fields))
          (no_fields)))

  unfoldable pub load : Deps R → Variables → Outcome (Fields R)
  load deps vars =
      after_loading
        (λ cfg. refuse_if (text_at "Database" "DSN" cfg == "") "config: database DSN is required" (
          refuse_if (text_at "JWT" "Secret" cfg == "") "config: jwt secret is required" (
            loaded (
              if leb_ℤ (int_at "JWT" "ExpiresInMinutes" cfg) (pos 0)
              then set_int "JWT" "ExpiresInMinutes" (pos 60) cfg
              else cfg))))
        (load_config deps vars defaults)

  unfoldable pub http_address : Fields R → String
  http_address cfg = address "8080" cfg

  unfoldable pub jwt_expiration : Fields R → ℤ
  jwt_expiration cfg = duration minute (pos (60 * minute)) (int_at "JWT" "ExpiresInMinutes" cfg)
