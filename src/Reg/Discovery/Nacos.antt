-- ===== src/Reg/Discovery/Nacos.antt =====
-- Discovery of reg/nacos/nacos_discovery.go: the fetch at the start, the callback of its subscription,
-- and the retries of the subscription.
pub mod Subscription
use foundation_framework.Base.{
  ℕ, suc, String, Bool, true, false, List, [], ◌∷◌, if◌then◌else◌, Option, none, some, ◌≡◌, refl,
}
use foundation_framework.Base.Dict.{Dict}
use foundation_framework.Err.{Error, is_nil, nil}
use foundation_framework.Reg.Instance.{Instance}
use foundation_framework.Reg.Discovery.{Discovery, KvPair, changed, pairs_of}

unfoldable pub any_instance : Instance → Bool
any_instance i = true

module _ (show_map : Dict String → String) where
  -- `fetch`: an error of GetService ends the process.
  unfoldable pub fetch : List Instance → Error → Discovery → Option Discovery
  fetch hosts e d =
      if is_nil e
      then some (record d { pairs = pairs_of show_map (λ i. i.enable) d.filter hosts })
      else none

  -- The callback of `watch`: it reads neither its error nor `Enable`.
  unfoldable pub subscribe_callback : List Instance → Error → Discovery → Discovery
  unfolding any_instance
  subscribe_callback services e d = changed (pairs_of show_map any_instance d.filter services) d
