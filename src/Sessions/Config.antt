-- ===== src/Sessions/Config.antt =====
-- The package config of backend/services/sessions-service.
use drive_power.Prelude.{ℤ, pos, ◌*◌, String, ◌==◌, string_eq}
use drive_power.Go.Texts.{trim_space}
use drive_power.Config.Model.{Fields, no_fields, Outcome, loaded, Variables, Deps}
use drive_power.Config.Loader.{load_config}
use drive_power.Config.Values.{
  text_field, int_field, section_field, text_at, int_at, address, refuse_if, after_loading, second,
  minute, duration,
}

module _ {R : Type 0} where
  -- What Load starts from.
  unfoldable pub defaults : Fields R
  defaults = section_field "HTTP" (text_field "Port" "SESSIONS_HTTP_PORT" "8082" no_fields) (
      section_field "Database" (text_field "DSN" "SESSIONS_POSTGRES_DSN" "" no_fields) (
        section_field "Redis"
          (text_field "Addr" "SESSIONS_REDIS_ADDR" "localhost:6379" (
            text_field "Password" "SESSIONS_REDIS_PASSWORD" "" (
              int_field "DB" "SESSIONS_REDIS_DB" (pos 0)
                (int_field "TTL" "SESSIONS_REDIS_TTL" (pos 86400) no_fields))))
          (no_fields)))

  unfoldable pub load : Deps R → Variables → Outcome (Fields R)
  load deps vars =
      after_loading
        (λ cfg.
          refuse_if (trim_space (text_at "Database" "DSN" cfg) == "")
            "config: database dsn required"
            (refuse_if (trim_space (text_at "Redis" "Addr" cfg) == "") "config: redis addr required"
              (loaded cfg)))
        (load_config deps vars defaults)

  unfoldable pub http_address : Fields R → String
  http_address cfg = address "8082" cfg

  unfoldable pub active_session_ttl : Fields R → ℤ
  active_session_ttl cfg = duration second (pos (24 * 60 * minute)) (int_at "Redis" "TTL" cfg)
