-- ===== src/Tests/Requests.antt =====
-- The middleware of request contexts and the selector on small inputs.
use foundation_framework.JsonRpc.{selector, selected, selector_round_robin}
use foundation_framework.Base.{
  get_elem?, ◌+◌, ◌%◌, arith, String, ◌≡◌, refl, none, some, List, [], ◌∷◌,
}
use foundation_framework.Err.{Error, nil}
use foundation_framework.Handler.Forwarding.{
  Context, get_request_context, called, get_request_context-resolve,
}
use foundation_framework.Handler.Forwarding

abbrev same : String → String
same s = s

abbrev unescape : String → String × Error
unescape s = (s, nil)

abbrev outside : Context {C = String} same unescape unescape
outside = record { request_context = none; outgoing = []; incoming = [] }

get_request_context-resolve_example :
    ((get_request_context same unescape unescape
        (Forwarding.resolve same unescape unescape "{}" outside)).0
      ≡ some "{}")
    × ((get_request_context same unescape unescape (
          called same unescape unescape (Forwarding.resolve same unescape unescape "{}" outside))).0
        ≡ some "{}")
    × ((get_request_context same unescape unescape
          (get_request_context same unescape unescape (
            called same unescape unescape
              (Forwarding.resolve same unescape unescape "{}" outside))).1).0
        ≡ some "{}")
get_request_context-resolve_example =
    get_request_context-resolve same unescape unescape "{}" "{}" "{}" outside (λ h. absurd (cc))
      refl (λ h. absurd (cc)) refl

abbrev two_addresses : List String
two_addresses = "a:1" ∷ "b:1" ∷ []

selector_round_robin_example :
    (a : String) × (get_elem? two_addresses ((0 + 2) % 2) ≡ some a)
    × ((selector [] two_addresses
          (selected [] 1 two_addresses (record { service_name = "s"; index = 0 }))).1
        ≡ some (a, nil))
selector_round_robin_example =
    selector_round_robin [] 1 "a:1" ("b:1" ∷ []) (record { service_name = "s"; index = 0 })
      (omega arith)
