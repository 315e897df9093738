-- ===== src/Tests/Startup.antt =====
-- What a process does when it starts, on small inputs.
use foundation_framework.Base.{
  arith, ℕ, String, ◌≡◌, ◌⊎◌, refl, inl, inr, ◌↔◌, true, false, none, some, List, [], ◌∷◌, All, map,
  if◌then◌else◌, ◌=ˢ◌,
}
use foundation_framework.Base.Int.{pos}
use foundation_framework.Base.Dict
use foundation_framework.Base.Dict.{Dict}
use foundation_framework.Err.{Error, nil, plain, is_nil, ◌<>◌}
use foundation_framework.Xxl.Dto
use foundation_framework.Xxl.Reply.{Reply}
use foundation_framework.Xxl.Options
use foundation_framework.Xxl.Options.{executor_options}
use foundation_framework.Xxl.Registration.{Response, turn, pass, answer, signal, start, steps}
use foundation_framework.Xxl.Registration.Sent.{IsOurs, steps-IsOurs}
use foundation_framework.Xxl.Registration.Sent.Heartbeats.{Round, events, heartbeats}
use foundation_framework.Config
use foundation_framework.Config.{Centre, use_env, must_load, client_configs, loaders, apply_options}
use foundation_framework.Config.Loaded.{IsLoaded, must_load_iff}
use foundation_framework.Reg.Registry
use foundation_framework.Reg.Registry.{
  DiscoveryService, new_round_robin_selector, new_rest_registry, new_json_rpc_client, last_service,
  selector_for, new_json_rpc_client-get,
}
use foundation_framework.JsonRpc.Call.{Client}

abbrev no_error : String → Error
no_error url = nil

abbrev registry_text : Dto.Registry → String
registry_text r = r.registry_key <> "@" <> r.registry_value

abbrev reply_text : Reply → String
reply_text r = "{}"

abbrev executor_conf : Options.Conf
executor_conf = record {
  token = "t";
  app_name = "jobs";
  client_ip = "";
  client_port = "";
  admin_address = "http://admin";
  log = record { keep_days = pos 30 };
}

-- The scheduler cannot be reached; it accepts.
abbrev unreached : Response
unreached = record { do_error = plain "refused"; read_error = nil; body = ""; decoded = Dto.null }

abbrev accepts : Response
accepts = record {
  do_error = nil;
  read_error = nil;
  body = "{\"code\":200}";
  decoded = Dto.decoded (record { code = pos 200; msg = "" });
}

steps-IsOurs_example :
    All
      (IsOurs no_error registry_text reply_text "10.0.0.1" executor_conf)
      (steps no_error registry_text reply_text
        (executor_options "10.0.0.1" executor_conf)
        (turn ∷ answer unreached ∷ pass 20 ∷ turn ∷ answer accepts ∷ signal ∷ pass 20 ∷ turn ∷ [])
        start).sent
steps-IsOurs_example =
    steps-IsOurs no_error registry_text reply_text "10.0.0.1" executor_conf
      (turn ∷ answer unreached ∷ pass 20 ∷ turn ∷ answer accepts ∷ signal ∷ pass 20 ∷ turn ∷ [])

abbrev two_rounds : List Round
two_rounds =
    record { response = unreached; answered = 3; idle = 5; more = 13 }
    ∷ record { response = accepts; answered = 0; idle = 19; more = 1 }
    ∷ []

heartbeats_example :
    ((steps no_error registry_text reply_text
        (executor_options "10.0.0.1" executor_conf)
        (events two_rounds)
        start).sent
      ≡ map
          (λ b. record {
            url = "http://admin/api/registry";
            content_type = "application/json;charset=UTF-8";
            access_token = "t";
            timeout = 0;
            body = "jobs@http://10.0.0.1:9999";
          })
          two_rounds)
    × ((steps no_error registry_text reply_text
          (executor_options "10.0.0.1" executor_conf)
          (events two_rounds)
          start).crashed
        ≡ false)
unfolding Options.or_default
heartbeats_example =
    heartbeats no_error registry_text reply_text "10.0.0.1" executor_conf two_rounds (λ a. refl)
      (
        (inl refl, (omega arith), (omega arith)),
        ((inr (inr (λ e. absurd (cc))), (omega arith), (omega arith)), tt),
      )

-- A loader that takes a document with one variable: the number of its value.
abbrev load_length : String → ℕ → ℕ × Error
load_length doc v = (if doc =ˢ "port: 80" then 80 else v, nil)

abbrev load_nothing : String → ℕ → ℕ × Error
load_nothing doc v = (v, plain "no json")

abbrev expand_port : String → String
expand_port doc = "port: 80"

abbrev nacos_conf : Config.Conf
nacos_conf = record {
  hosts = [];
  namespace = "public";
  not_load_cache_at_start = true;
  log_level = "info";
  log_dir = "/tmp/nacos/log";
  cache_dir = "/tmp/nacos/cache";
  config_param = record { data_id = "d"; group = "g"; format = "yaml" };
}

abbrev centre : Centre
centre = record {
  create_error = λ c. nil;
  get_config = λ d g. ("port: ${PORT}", nil);
  listen_error = nil;
}

must_load_iff_example :
    (must_load load_nothing load_length expand_port nacos_conf true centre (use_env ∷ []) 0
      ≡ some 80)
    ↔ ((true ≡ true)
        × (is_nil (centre.create_error (client_configs nacos_conf)) ≡ true)
        × (is_nil (centre.get_config "d" "g").1 ≡ true)
        × (((◌≡◌ {A = String} "yaml" "json")
              × IsLoaded load_nothing load_length expand_port
                  (apply_options (use_env ∷ []) (record { env = false }))
                  load_nothing
                  "port: ${PORT}"
                  0
                  80)
            ⊎ ((◌≡◌ {A = String} "yaml" "yaml")
                × IsLoaded load_nothing load_length expand_port
                    (apply_options (use_env ∷ []) (record { env = false }))
                    load_length
                    "port: ${PORT}"
                    0
                    80)))
must_load_iff_example =
    must_load_iff load_nothing load_length expand_port nacos_conf true centre (use_env ∷ []) 0 80

abbrev discovers : DiscoveryService → List String × Error
discovers d = (d.cluster ∷ [], nil)

abbrev registry_conf : Registry.Conf
registry_conf = record {
  hosts = record { ip = "h"; port = 8848 } ∷ [];
  namespace = "public";
  not_load_cache_at_start = true;
  log_level = "info";
  log_dir = "";
  cache_dir = "";
  json_rpc_conf = record {
    discovery_services =
        record { service = "orders"; cluster = "a"; group = "" }
        ∷ record { service = "orders"; cluster = "b"; group = "" }
        ∷ [];
    listen_on = ":9000";
  };
}

abbrev orders_client : Client
orders_client = record {
  discovery_map =
      (
        "orders",
        record { round_robin = record { service_name = "orders"; index = 0 }; services = "b" ∷ [] },
      )
      ∷ [];
}

new_json_rpc_client-get_example :
    Dict.get orders_client.discovery_map "orders"
    ≡ selector_for discovers (
        last_service "orders" none (
          record { service = "orders"; cluster = "a"; group = "" }
          ∷ record { service = "orders"; cluster = "b"; group = "" }
          ∷ []))
unfolding new_json_rpc_client new_rest_registry new_round_robin_selector Dict.put Dict.remove
new_json_rpc_client-get_example =
    new_json_rpc_client-get discovers (new_rest_registry registry_conf "shop" "0.0.0.0" 80)
      orders_client "orders" refl
