-- ===== src/Config.antt =====
-- The configuration centre: conf/nacos/conf.go and conf/nacos/options.go. The client of nacos, the
-- loaders of go-zero, the file's loader and `os.ExpandEnv` are parameters; a loader writes into the
-- value behind the pointer `v`, also where it fails.
pub mod Loaded
use foundation_framework.Base.{
  ℕ, String, Bool, true, false, Option, none, some, List, [], ◌∷◌, map, if◌then◌else◌, ◌=ˢ◌,
}
use foundation_framework.Err.{Error, is_nil}

pub record Host : Type 0 where
  pub ip : String
  pub port : ℕ

pub record ConfigParam : Type 0 where
  pub data_id : String
  pub group : String
  pub format : String

-- `Conf`; the field `Type` of `ConfigParam` is `format`.
pub record Conf : Type 0 where
  pub hosts : List Host
  pub namespace : String
  pub not_load_cache_at_start : Bool
  pub log_level : String
  pub log_dir : String
  pub cache_dir : String
  pub config_param : ConfigParam

pub record Options : Type 0 where
  pub env : Bool

abbrev pub SetOption : Type 0
SetOption = Options → Options

unfoldable pub use_env : SetOption
use_env o = record o { env = true }

unfoldable pub apply_options : List SetOption → Options → Options
apply_options [] o = o
apply_options (f ∷ fs) o = apply_options fs (f o)

-- What `CreateConfigClient` is called with.
pub record ClientConfig : Type 0 where
  pub namespace_id : String
  pub timeout_ms : ℕ
  pub not_load_cache_at_start : Bool
  pub log_dir : String
  pub cache_dir : String
  pub log_level : String

unfoldable pub client_configs : Conf → List (String × ℕ) × ClientConfig
client_configs c = (
  map (λ h. (h.ip, h.port)) c.hosts,
  record {
    namespace_id = c.namespace;
    timeout_ms = 5000;
    not_load_cache_at_start = c.not_load_cache_at_start;
    log_dir = c.log_dir;
    cache_dir = c.cache_dir;
    log_level = c.log_level;
  },
)

-- What the process meets: the client that nacos creates for its configuration, if it does not fail,
-- answers a query for a data id and a group by a document or an error.
pub record Centre : Type 0 where
  pub create_error : List (String × ℕ) × ClientConfig → Error
  pub get_config : String → String → String × Error
  pub listen_error : Error

module _ {V : Type 0} (load_json load_yaml : String → V → V × Error)
    (expand_env : String → String) where
  unfoldable pub loaders : String → Option (String → V → V × Error)
  loaders format =
      if format =ˢ "json"
      then some load_json
      else (if format =ˢ "yaml" then some load_yaml else none)

  -- `logx.Must`: `none` where it ends the process.
  must : V × Error → Option V
  must (v, e) = if is_nil e then some v else none

  -- Without `env` the error of the loader is dropped.
  unfoldable pub parse_content : (String → V → V × Error) → Options → String → V → Option V
  unfolding must
  parse_content loader opt doc v =
      if opt.env then must (loader (expand_env doc) v) else some (loader doc v).0

  loaded : Option (String → V → V × Error) → Options → String → V → Option V
  unfolding parse_content
  loaded none opt doc v = none
  loaded (some loader) opt doc v = parse_content loader opt doc v

  answered : Conf → Options → String × Error → V → Option V
  unfolding loaded loaders
  answered c opt (doc, e) v =
      if is_nil e then loaded (loaders c.config_param.format) opt doc v else none

  -- `MustLoad` of the configuration in the file, on whether `v` is a pointer: the value behind it,
  -- or `none` where the process ends.
  unfoldable pub must_load : Conf → Bool → Centre → List SetOption → V → Option V
  unfolding answered client_configs apply_options
  must_load c is_pointer n opts v =
      let got =
        answered c (apply_options opts (record { env = false }))
          (n.get_config c.config_param.data_id c.config_param.group) v in
      let created = if is_nil (n.create_error (client_configs c)) then got else none in
      if is_pointer then created else none

  -- The changes that nacos tells `OnChange`, one after the other.
  unfoldable pub changes : (String → V → V × Error) → Options → List String → Option V → Option V
  unfolding parse_content
  changes loader opt ds none = none
  changes loader opt [] (some v) = some v
  changes loader opt (d ∷ ds) (some v) = changes loader opt ds (parse_content loader opt d v)

  -- The value after the changes: where `ListenConfig` fails, its error is not looked at, and no
  -- change is ever told.
  unfoldable pub listened : Centre → (String → V → V × Error) → Options → List String → V → Option V
  unfolding changes
  listened n loader opt ds v =
      if is_nil n.listen_error then changes loader opt ds (some v) else some v
