-- ===== src/Billing/Config.antt =====
-- The package config of backend/services/billing-service.
use drive_power.Prelude.{String, ◌==◌, string_eq}
use drive_power.Go.Texts.{trim_space}
use drive_power.Config.Model.{Fields, no_fields, Outcome, loaded, Variables, Deps}
use drive_power.Config.Loader.{load_config}
use drive_power.Config.Values.{
  text_field, section_field, text_at, address, refuse_if, after_loading,
}

module _ {R : Type 0} where
  -- What Load starts from.
  unfoldable pub defaults : Fields R
  defaults =
      section_field "HTTP" (text_field "Port" "BILLING_HTTP_PORT" "8083" no_fields) (
        section_field "Database" (text_field "DSN" "BILLING_POSTGRES_DSN" "" no_fields) (no_fields))

  unfoldable pub load : Deps R → Variables → Outcome (Fields R)
  load deps vars =
      after_loading
        (λ cfg.
          refuse_if (trim_space (text_at "Database" "DSN" cfg) == "")
            "config: database dsn required" (loaded cfg))
        (load_config deps vars defaults)

  unfoldable pub http_address : Fields R → String
  http_address cfg = address "8083" cfg
