-- ===== src/Reg/Registry.antt =====
-- The registry of nacos that a process starts with: reg/nacos/nacos.go. `new_discovery` stands for
-- `NewDiscovery` of a configured service: the services that the discovery knows, or its error.
use foundation_framework.Base.{
  ℕ, String, ◌≡◌, refl, ap, sym, ◌∙◌, Bool, true, false, Option, none, some, some_inj, List, [],
  ◌∷◌, map, if◌then◌else◌, ◌=ˢ◌, inl, inr, Bool-cases,
}
use foundation_framework.Base.Int.{pos}
use foundation_framework.Base.Decimal.{format_int}
use foundation_framework.Base.Dict
use foundation_framework.Base.Dict.{Dict, get-put, get-empty}
use foundation_framework.Err.{Error, is_nil, ◌<>◌}
use foundation_framework.Util.ListenOn.{figure_out_listen_on}
use foundation_framework.JsonRpc.Call.{Selector, Client}

pub record Host : Type 0 where
  pub ip : String
  pub port : ℕ

-- A service to discover: its name, and the cluster and group of nacos.
pub record DiscoveryService : Type 0 where
  pub service : String
  pub cluster : String
  pub group : String

pub record JsonRpcConf : Type 0 where
  pub discovery_services : List DiscoveryService
  pub listen_on : String

-- `Conf` of reg/nacos.
pub record Conf : Type 0 where
  pub hosts : List Host
  pub namespace : String
  pub not_load_cache_at_start : Bool
  pub log_level : String
  pub log_dir : String
  pub cache_dir : String
  pub json_rpc_conf : JsonRpcConf

-- `constant.ClientConfig`, the fields that are set.
pub record ClientConfig : Type 0 where
  pub namespace_id : String
  pub timeout_ms : ℕ
  pub not_load_cache_at_start : Bool
  pub log_dir : String
  pub cache_dir : String
  pub log_level : String

-- `registry` of reg/nacos.
pub record Registry : Type 0 where
  pub conf : Conf
  pub sc : List (String × ℕ)
  pub cc : ClientConfig
  pub service_name : String
  pub listen_on : String

unfoldable pub new_registry : Conf → String → String → Registry
new_registry conf name listen_on = record {
  conf = conf;
  sc = map (λ h. (h.ip, h.port)) conf.hosts;
  cc = record {
    namespace_id = conf.namespace;
    timeout_ms = 5000;
    not_load_cache_at_start = conf.not_load_cache_at_start;
    log_dir = conf.log_dir;
    cache_dir = conf.cache_dir;
    log_level = conf.log_level;
  };
  service_name = name;
  listen_on = listen_on;
}

-- `NewRestRegistry`, with the name, host and port of the REST server.
unfoldable pub new_rest_registry : Conf → String → String → ℕ → Registry
unfolding new_registry
new_rest_registry conf name host port =
    new_registry conf name (host <> ":" <> format_int (pos port))

-- The address that `NewJsonRpcRegister` registers; `ip` is what `GetInternalIp` returns.
unfoldable pub service_address : String → Registry → String
service_address ip r = "tcp@" <> figure_out_listen_on ip r.conf.json_rpc_conf.listen_on

-- `NewRoundRobinSelector` on a discovery.
unfoldable pub new_round_robin_selector : String → List String → Selector
new_round_robin_selector service known = record {
  round_robin = record { service_name = service; index = 0 };
  services = known;
}

-- The last configured service of a name.
unfoldable pub last_service :
    String → Option DiscoveryService → List DiscoveryService → Option DiscoveryService
last_service name found [] = found
last_service name found (d ∷ ds) =
    let rest = last_service name found ds in
    let rest' = last_service name (some d) ds in if d.service =ˢ name then rest' else rest

if-some :
    {A : Type 0} (b : Bool) (o : Option A) {a : A} → (if b then o else none) ≡ some a → o ≡ some a
if-some true o h = h
if-some false o h = absurd (cc)

client_of : Option (Dict Selector) → Option Client
client_of none = none
client_of (some m) = some (record { discovery_map = m })

client_of-some :
    (o : Option (Dict Selector)) (c : Client)
    → client_of o ≡ some c
    → (m : Dict Selector) × (o ≡ some m) × (record { discovery_map = m } ≡ c)
unfolding client_of
client_of-some none c h = absurd (cc)
client_of-some (some m) c h = (m, refl, some_inj h)

module _ (new_discovery : DiscoveryService → List String × Error) where
  -- The loop over the configured services: `none` where `logx.Must` ends the process.
  discovered : Dict Selector → List DiscoveryService → Option (Dict Selector)
  unfolding new_round_robin_selector
  discovered m [] = some m
  discovered m (d ∷ ds) =
      let (known, e) = new_discovery d in
      let rest = discovered (Dict.put m d.service (new_round_robin_selector d.service known)) ds in
      if is_nil e then rest else none

  unfoldable pub new_json_rpc_client : Registry → Option Client
  unfolding discovered client_of
  new_json_rpc_client r = client_of (discovered [] r.conf.json_rpc_conf.discovery_services)

  -- The selector of a service that was configured, if there is one.
  unfoldable pub selector_for : Option DiscoveryService → Option Selector
  selector_for none = none
  selector_for (some d) = some (new_round_robin_selector d.service (new_discovery d).0)

  discovered-get :
      (ds : List DiscoveryService) (m m' : Dict Selector) (name : String)
      (o : Option DiscoveryService)
      → Dict.get m name ≡ selector_for o
      → discovered m ds ≡ some m'
      → Dict.get m' name ≡ selector_for (last_service name o ds)
  unfolding discovered last_service selector_for
  discovered-get [] m m' name o h e =
      ap (λ (d : Dict Selector). Dict.get d name) (sym (some_inj e)) ∙ h
  discovered-get (d ∷ ds) m m' name o h e =
      let v = new_round_robin_selector d.service (new_discovery d).0 in
      let k = if-some (is_nil (new_discovery d).1) _ e in
      let g = get-put m d.service name v in
      elim (Bool-cases (d.service =ˢ name)) [
        | inl t ↦ rw t (
            discovered-get ds _ m' name (some d)
              (g ∙ ap (λ (b : Bool). if b then some v else Dict.get m name) t) k)
        | inr f ↦ rw f (
            discovered-get ds _ m' name o
              (g ∙ ap (λ (b : Bool). if b then some v else Dict.get m name) f ∙ h) k)
      ]

  -- The client of a registry, if no discovery fails, has for each configured service a new selector
  -- over its own discovery, that of the last entry where a name is configured twice, and no selector
  -- for any other service.
  pub new_json_rpc_client-get :
      (r : Registry) (c : Client) (name : String)
      → new_json_rpc_client r ≡ some c
      → Dict.get c.discovery_map name
        ≡ selector_for (last_service name none r.conf.json_rpc_conf.discovery_services)
  unfolding new_json_rpc_client selector_for
  new_json_rpc_client-get r c name h =
      let (m, e, k) = client_of-some (discovered [] r.conf.json_rpc_conf.discovery_services) c h in
      ap (λ (l : Client). Dict.get l.discovery_map name) (sym k)
      ∙ discovered-get r.conf.json_rpc_conf.discovery_services [] m name none (get-empty name) e
