-- ===== src/Reg/Discovery.antt =====
-- Service discovery for JSON-RPC: reg/nacos/nacos_discovery.go and reg/consul/consul_discovery.go.
-- Both keep the address pairs of a service and the channels of its watchers, and tell each watcher
-- of a change by a goroutine. `show_map` is rpcx's `ConvertMap2String`.
pub mod Watchers
pub mod Filtered
pub mod Nacos
pub mod Consul
use foundation_framework.Base.{
  ℕ, suc, String, Bool, true, false, List, [], ◌∷◌, ◌++◌, map, ◌==◌, if◌then◌else◌, Option, none,
  some, ◌≡◌,
}
use foundation_framework.Base.Dict.{Dict}
use foundation_framework.Reg.Instance.{Instance, address}

-- `client.KVPair`
pub record KvPair : Type 0 where
  pub key : String
  pub value : String

-- What both discoveries keep; a channel is the number of its `WatchService`. `told` are the
-- channels of the goroutines started to send to one; such a goroutine reads the pairs when it sends.
pub record Discovery : Type 0 where
  pub pairs : List KvPair
  pub chans : List ℕ
  pub next_chan : ℕ
  pub filter : Option (KvPair → Bool)
  pub told : List ℕ

unfoldable pub new_discovery : Discovery
new_discovery = record { pairs = []; chans = []; next_chan = 0; filter = none; told = [] }

unfoldable pub set_filter : (KvPair → Bool) → Discovery → Discovery
set_filter f d = record d { filter = some f }

unfoldable pub get_services : Discovery → List KvPair
get_services d = d.pairs

unfoldable pub watch_service : Discovery → Discovery × ℕ
watch_service d =
    (record d { chans = d.chans ++ d.next_chan ∷ []; next_chan = suc d.next_chan }, d.next_chan)

without : ℕ → List ℕ → List ℕ
without ch [] = []
without ch (c ∷ chans) = let rest = without ch chans in if c == ch then rest else c ∷ rest

unfoldable pub remove_watcher : ℕ → Discovery → Discovery
unfolding without
remove_watcher ch d = record d { chans = without ch d.chans }

-- `d.filter != nil && !d.filter(pair)` drops a pair.
unfoldable pub passes : Option (KvPair → Bool) → KvPair → Bool
passes none p = true
passes (some f) p = f p

-- The new pairs, and a goroutine for each watcher.
unfoldable pub changed : List KvPair → Discovery → Discovery
changed pairs d = record d { pairs = pairs; told = d.told ++ d.chans }

module _ (show_map : Dict String → String) where
  unfoldable pub pair : Instance → KvPair
  pair i = record { key = address i; value = show_map i.metadata }

  -- The loop over the instances, those first that `keep` drops.
  unfoldable pub pairs_of : (Instance → Bool) → Option (KvPair → Bool) → List Instance → List KvPair
  unfolding pair passes
  pairs_of keep filter [] = []
  pairs_of keep filter (i ∷ is) =
      let rest = pairs_of keep filter is in
      if keep i then (if passes filter (pair i) then pair i ∷ rest else rest) else rest
