-- ===== src/Autoconf/Client.antt =====
-- startAutoConf and createAutoConfClient of autoconf.go.
use someguy.Prelude.{
  ℕ, zero, Bool, not, ◌&&◌, Option, none, some, ◌++◌, is_empty, ◌==◌, if◌then◌else◌,
}
use someguy.Prelude.Bytes.{Bytes, codes}
use someguy.Routers.Compose.{Fallible, ok, fails}

pub record AutoConfConfig : Type 0 where
  pub enabled : Bool
  pub url : Bytes
  pub refresh_interval : ℕ
  pub cache_dir : Bytes

-- The options of autoconf.NewClient that the configuration decides; size, timeout and fallback
-- are constants of boxo.
pub record ClientOptions : Type 0 where
  pub url : Bytes
  pub refresh_interval : ℕ
  pub cache_dir : Bytes
  pub user_agent : Bytes

-- N: autoconf clients. Start gives a configuration also when it cannot fetch one.
pub record AutoconfClient (F N : Type 0) : Type 0 where
  pub default_refresh_interval : ℕ
  pub mainnet_auto_conf_url : Bytes
  pub new_client : ClientOptions → Fallible N
  pub start : N → Fallible F

-- The callers log an error and go on with what they have.
abbrev pub auto_conf_or_nil : {F : Type 0} → Fallible (Option F) → Option F
auto_conf_or_nil (fails e) = none
auto_conf_or_nil (ok f) = f

module _ {F N : Type 0} (boxo : AutoconfClient F N) where
  unfoldable pub create_auto_conf_client : Bytes → AutoConfConfig → Fallible N
  create_auto_conf_client version cfg = boxo.new_client (record {
    url = if is_empty cfg.url then boxo.mainnet_auto_conf_url else cfg.url;
    refresh_interval =
        if cfg.refresh_interval == zero
        then boxo.default_refresh_interval
        else cfg.refresh_interval;
    cache_dir = if is_empty cfg.cache_dir then codes ".autoconf-cache" else cfg.cache_dir;
    user_agent = codes "someguy/" ++ version;
  })

  -- The configuration, none for nil, or an error.
  unfoldable pub start_auto_conf : Bytes → AutoConfConfig → Fallible (Option F)
  unfolding create_auto_conf_client
  start_auto_conf version cfg =
      if cfg.enabled && not (is_empty cfg.url)
      then elim (create_auto_conf_client version cfg) [
        | fails e ↦ fails e
        | ok client ↦ elim (boxo.start client) [ fails e ↦ fails e | ok f ↦ ok (some f) ]
      ]
      else ok none
