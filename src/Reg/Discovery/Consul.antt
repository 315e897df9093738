-- ===== src/Reg/Discovery/Consul.antt =====
-- Discovery of reg/consul/consul_discovery.go: the rounds of its `watch`, which never ends, and
-- `Close`. A round asks consul for the passing entries of the service with the last index.
use foundation_framework.Base.{ℕ, String, Bool, true, false, List, [], ◌∷◌, ◌=ˢ◌, if◌then◌else◌}
use foundation_framework.Base.Dict.{Dict}
use foundation_framework.Err.{Error, is_nil}
use foundation_framework.Reg.Instance.{Instance}
use foundation_framework.Reg.Discovery.{Discovery, new_discovery, changed, pairs_of}

-- `api.ServiceEntry`
pub record ServiceEntry : Type 0 where
  pub service_address : String
  pub node_address : String
  pub port : ℕ
  pub meta : Dict String

-- The watch loop: what the discovery keeps, the last index, whether the next result is the first
-- (`initFlag`), and whether `NewDiscovery` may return.
pub record Watch : Type 0 where
  pub discovery : Discovery
  pub last_index : ℕ
  pub init_flag : Bool
  pub initialized : Bool

unfoldable pub new_watch : Watch
new_watch = record {
  discovery = new_discovery;
  last_index = 0;
  init_flag = true;
  initialized = false;
}

-- The node's address where the service has none.
unfoldable pub instance_of : ServiceEntry → Instance
instance_of s = record {
  ip = if s.service_address =ˢ "" then s.node_address else s.service_address;
  port = s.port;
  enable = true;
  metadata = s.meta;
}

unfoldable pub instances_of : List ServiceEntry → List Instance
instances_of [] = []
instances_of (s ∷ ss) = instance_of s ∷ instances_of ss

-- What consul answers: the entries and their index, or an error.
pub record Answer : Type 0 where
  pub entries : List ServiceEntry
  pub index : ℕ
  pub error : Error

module _ (show_map : Dict String → String) where
  unfoldable pub answered : Answer → Watch → Watch
  answered a w = record {
    discovery =
        changed (pairs_of show_map (λ i. true) w.discovery.filter (instances_of a.entries))
          w.discovery;
    last_index = a.index;
    init_flag = false;
    initialized = true;
  }

  -- One round: an error waits for the backoff and changes nothing.
  unfoldable pub watch_round : Answer → Watch → Watch
  unfolding answered instances_of instance_of
  watch_round a w = if is_nil a.error then answered a w else w

  unfoldable pub watch_rounds : List Answer → Watch → Watch
  watch_rounds [] w = w
  watch_rounds (a ∷ as') w = watch_rounds as' (watch_round a w)

-- `Close` closes every channel of a watcher, and `initialize`.
unfoldable pub close : Discovery → List ℕ
close d = d.chans
