-- ===== src/Reg/Resolver.antt =====
-- The gRPC resolver of reg/nacos/resolver.go: the callback of a subscription sends the endpoints
-- through a channel to `populateEndpoints`, which updates the connection's addresses.
pub mod Canonical
use foundation_framework.Base.{
  ℕ, suc, String, Bool, true, false, List, [], ◌∷◌, ◌=ˢ◌, ◌||◌, if◌then◌else◌, Option, none, some,
  ◌≡◌,
}
use foundation_framework.Base.Dict
use foundation_framework.Base.Order.{sort, text_before}
use foundation_framework.Err.{Error, is_nil, ◌<>◌}
use foundation_framework.Reg.Instance.{Instance, address, or_empty}

-- The endpoint of an instance: its metadata may name another port for gRPC.
unfoldable pub endpoint : Instance → String
unfolding or_empty
endpoint i =
    let port = or_empty (Dict.get i.metadata "gRPC_port") in
    if port =ˢ "" then address i else i.ip <> ":" <> port

unfoldable pub endpoints : List Instance → List String
endpoints [] = []
endpoints (i ∷ is) = endpoint i ∷ endpoints is

contains : String → List String → Bool
contains a [] = false
contains a (x ∷ xs) = x =ˢ a || contains a xs

-- The keys of the map `connsSet`, in one of the orders that Go may take them in.
unfoldable pub conns_set : List String → List String
unfolding contains
conns_set [] = []
conns_set (c ∷ cc) = let rest = conns_set cc in if contains c rest then rest else c ∷ rest

-- The addresses that `populateEndpoints` gives to the connection.
unfoldable pub populate_endpoints : List String → List String
unfolding conns_set
populate_endpoints cc = sort text_before (conns_set cc)

-- A resolver: the addresses of its connection, whether `populateEndpoints` still receives, and the
-- callbacks that wait to send.
pub record Resolver : Type 0 where
  pub addresses : List String
  pub receives : Bool
  pub blocked : ℕ

-- What happens to a resolver: a callback of its subscription, or `Close`.
pub data Event : Type 0 where
  call_back : List Instance → Error → Event
  close : Event

-- The send on `nw.out`, which has no buffer.
sent : List String → Resolver → Resolver
sent ee r =
    if r.receives
    then record r { addresses = populate_endpoints ee }
    else record r { blocked = suc r.blocked }

unfoldable pub call_back_handle : List Instance → Error → Resolver → Resolver
unfolding sent endpoints
call_back_handle services e r = if is_nil e then sent (endpoints services) r else r

unfoldable pub step : Event → Resolver → Resolver
unfolding call_back_handle
step (call_back services e) r = call_back_handle services e r
step close r = record r { receives = false }

unfoldable pub run : List Event → Resolver → Resolver
run [] r = r
run (v ∷ vs) r = run vs (step v r)
