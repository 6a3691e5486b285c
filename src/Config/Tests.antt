-- ===== src/Config/Tests.antt =====
-- Runs of LoadConfig on the configuration of the sessions service.
use drive_power.Prelude.{ℤ, pos, [], ◌∷◌, ◌≡◌, refl, lookup, string_eq}
use drive_power.Prelude.Int.{wrap64, ◌*ℤ◌}
use drive_power.Go.{ok, err, message, parse_int}
use drive_power.Go.Texts.{to_upper, dashes_replaced, trim_space, trim_left, trim_right, is_space}
use drive_power.Config.Model.{loaded, failed, parse, refused, on_loaded, Variables, Deps}
use drive_power.Config.Loader.{
  load_config, populate_from_env, is_read, from_env, env_key, normalize_key, assign, parse_bits,
}
use drive_power.Config.Leaves.{leaves, overridden, populate_from_env-overridden}
use drive_power.Config.Values.{section_of, leaf_of, text_at, int_at, duration}
use drive_power.Sessions.Config.{defaults, load, active_session_ttl}

abbrev deps : Deps ℤ
deps = record {
  read = λ path. err (message "no file");
  unmarshal = λ data_ target. ok target;
  parse_float = λ s. err (message "no float");
}

abbrev variables : Variables
variables = ("SESSIONS_POSTGRES_DSN", "postgres://") ∷ (("SESSIONS_REDIS_TTL", "60") ∷ [])

populate_from_env-overridden_example :
    on_loaded (λ filled. leaves filled "") (populate_from_env deps variables defaults "")
    ≡ overridden deps variables (leaves defaults "")
populate_from_env-overridden_example = populate_from_env-overridden deps variables defaults ""

ttl_loaded : on_loaded active_session_ttl (load deps variables) ≡ loaded (pos 60000000000)
unfolding load load_config lookup populate_from_env defaults is_read from_env trim_space trim_right
    trim_left text_at leaf_of section_of env_key normalize_key to_upper dashes_replaced assign
    parse_bits parse_int active_session_ttl int_at duration wrap64 ◌*ℤ◌ is_space
ttl_loaded = refl

dsn_required : load deps [] ≡ failed (refused "config: database dsn required")
unfolding load load_config lookup populate_from_env defaults is_read from_env trim_space trim_right
    trim_left text_at leaf_of section_of
dsn_required = refl

ttl_refused :
    load deps (("SESSIONS_REDIS_TTL", "1h") ∷ variables)
    ≡ failed (parse "SESSIONS_REDIS_TTL" (message "invalid syntax"))
unfolding load load_config lookup populate_from_env defaults is_read from_env trim_space trim_right
    trim_left text_at leaf_of section_of env_key normalize_key to_upper dashes_replaced assign
    parse_bits parse_int
ttl_refused = refl

derived_key :
    (normalize_key "" "http-port" ≡ "HTTP_PORT") × (normalize_key "REDIS" "Addr" ≡ "REDIS_ADDR")
unfolding normalize_key to_upper dashes_replaced
derived_key = (refl, refl)
