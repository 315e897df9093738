-- ===== src/Xxl/Options.antt =====
-- The options of the executor: xxl/optinos.go and `NewExecutor` of xxl/executor.go. `internal_ip`
-- is what `ip.GetInternalIp` returns.
use foundation_framework.Base.{ℕ, String, ◌≡◌, arith, List, [], ◌∷◌, ◌++◌, if◌then◌else◌, ◌=ˢ◌}
use foundation_framework.Base.Int.{ℤ}
use foundation_framework.Err.{◌<>◌}

pub record LogConf : Type 0 where
  pub keep_days : ℤ

pub record Conf : Type 0 where
  pub token : String
  pub app_name : String
  pub client_ip : String
  pub client_port : String
  pub admin_address : String
  pub log : LogConf

-- `timeout` is the timeout of the HTTP client, 0 for none.
pub record Options : Type 0 where
  pub server_addr : String
  pub access_token : String
  pub timeout : ℕ
  pub executor_ip : String
  pub executor_port : String
  pub registry_key : String

abbrev pub default_executor_port : String
default_executor_port = "9999"

abbrev pub default_registry_key : String
default_registry_key = "golang-jobs"

-- `Option`: what the function does to the options that it is called with.
abbrev pub SetOption : Type 0
SetOption = Options → Options

unfoldable pub admin_address : String → SetOption
admin_address addr o = record o { server_addr = addr }

unfoldable pub token : String → SetOption
token t o = record o { access_token = t }

unfoldable pub client_ip : String → SetOption
client_ip ip o = record o { executor_ip = ip }

unfoldable pub client_port : String → SetOption
client_port port o = record o { executor_port = port }

unfoldable pub registry_key : String → SetOption
registry_key key o = record o { registry_key = key }

unfoldable pub apply_options : List SetOption → Options → Options
apply_options [] o = o
apply_options (f ∷ fs) o = apply_options fs (f o)

unfoldable pub new_options : String → List SetOption → Options
unfolding apply_options
new_options internal_ip opts = apply_options opts (record {
  server_addr = "";
  access_token = "";
  timeout = 0;
  executor_ip = internal_ip;
  executor_port = default_executor_port;
  registry_key = default_registry_key;
})

-- `if len(s) != 0 { opts = append(opts, f(s)) }`
unfoldable pub append_option : String → SetOption → List SetOption → List SetOption
append_option s f opts = if s =ˢ "" then opts else opts ++ f ∷ []

-- The options that `NewExecutor` makes of the configuration.
unfoldable pub conf_options : Conf → List SetOption
unfolding append_option admin_address token client_ip client_port registry_key
conf_options c =
    append_option c.client_port (client_port c.client_port) (
      append_option c.client_ip (client_ip c.client_ip)
        (append_option c.app_name (registry_key c.app_name) []))
    ++ admin_address c.admin_address ∷ token c.token ∷ []

-- The options of `NewExecutor`'s executor.
unfoldable pub executor_options : String → Conf → Options
unfolding new_options conf_options
executor_options internal_ip c = new_options internal_ip (conf_options c)

-- `executor.address`
unfoldable pub address : Options → String
address o = o.executor_ip <> ":" <> o.executor_port

-- A configured text, or the default where it is empty.
unfoldable pub or_default : String → String → String
or_default s default = if s =ˢ "" then default else s

-- Each field of the options is the configured one, or its default where that is empty.
pub executor_options_lem :
    (internal_ip : String) (c : Conf)
    → executor_options internal_ip c ≡ record {
      server_addr = c.admin_address;
      access_token = c.token;
      timeout = 0;
      executor_ip = or_default c.client_ip internal_ip;
      executor_port = or_default c.client_port default_executor_port;
      registry_key = or_default c.app_name default_registry_key;
    }
unfolding executor_options new_options conf_options apply_options append_option admin_address token
    client_ip client_port registry_key or_default
executor_options_lem internal_ip c = ground arith
