-- ===== src/Tests/Registries.antt =====
-- Registries and the gateway on small inputs.
use foundation_framework.Base.{
  ℕ, ◌≤◌, arith, All, String, Bool, ◌≡◌, refl, true, false, some, List, [], ◌∷◌, not, inl, inr,
  if◌then◌else◌, zero, suc,
}
use Prim.Native.String.{◌∷◌ as char_cons}
use foundation_framework.Base.Order.{sort, In, text_before, Ascends, SameElements}
use foundation_framework.Err.{nil, plain, ◌<>◌}
use foundation_framework.Reg.Instance.{Instance}
use foundation_framework.Reg.Resolver.{populate_endpoints, Resolver, call_back, close, run}
use foundation_framework.Reg.Resolver.Canonical.{
  populate_endpoints_unique, populate_endpoints_same, run-Ascends,
}
use foundation_framework.Reg.Discovery.{new_discovery}
use foundation_framework.Reg.Discovery.Watchers.{
  watch, remove, calls, specs, no_watchers, Refines, new_discovery-Refines,
}
use foundation_framework.Reg.Discovery.Nacos.Subscription.{
  Ended, resubscribe, all_fail, resubscribe_ends,
}
use foundation_framework.Reg.Discovery.Consul.{Watch, Answer, ServiceEntry, new_watch, watch_rounds}
use foundation_framework.Base.Int.{pos}
use foundation_framework.Reg.Consul.{Agent, Registration}
use foundation_framework.Reg.Consul.Beats.{AgentLaws}
use foundation_framework.Shenyu.{Client, Conf, missing}
use foundation_framework.Shenyu.Paths.{no_slash, context_path, context_path-app, slash}
use foundation_framework.Shenyu.Registered.{HttpServer, with_ip, filled, uri_register}
use foundation_framework.Shenyu.Once.{Below, Twice, begun, registers_once}

abbrev two_hosts : List String
two_hosts = "10.0.0.2:80" ∷ "10.0.0.1:80" ∷ []

abbrev two_hosts_again : List String
two_hosts_again = "10.0.0.1:80" ∷ "10.0.0.2:80" ∷ []

populate_endpoints-sorts : populate_endpoints two_hosts ≡ two_hosts_again
unfolding populate_endpoints sort text_before
populate_endpoints-sorts = refl

swap : (a x y : String) → In a (x ∷ y ∷ []) → In a (y ∷ x ∷ [])
swap a x y (inl e) = inr (inl e)
swap a x y (inr (inl e)) = inl e
swap a x y (inr (inr m)) = elim m [ ]

swapped : SameElements two_hosts two_hosts_again
swapped a = (swap a "10.0.0.2:80" "10.0.0.1:80", swap a "10.0.0.1:80" "10.0.0.2:80")

populate_endpoints_unique_example : populate_endpoints two_hosts ≡ two_hosts_again
unfolding text_before
populate_endpoints_unique_example =
    populate_endpoints_unique two_hosts two_hosts_again ((refl, tt), (tt, tt))
      (λ a. (swap a "10.0.0.1:80" "10.0.0.2:80", swap a "10.0.0.2:80" "10.0.0.1:80"))

populate_endpoints_same_example : populate_endpoints two_hosts ≡ populate_endpoints two_hosts_again
populate_endpoints_same_example = populate_endpoints_same two_hosts two_hosts_again swapped

abbrev one_off : List Instance
one_off = record { ip = "10.0.0.1"; port = 80; enable = false; metadata = [] } ∷ []

abbrev idle : Resolver
idle = record { addresses = []; receives = true; blocked = 0 }

run-Ascends_example :
    Ascends text_before (run (call_back one_off nil ∷ close ∷ call_back [] nil ∷ []) idle).addresses
run-Ascends_example = run-Ascends (call_back one_off nil ∷ close ∷ call_back [] nil ∷ []) idle tt

new_discovery-Refines_example :
    Refines
      (calls (watch ∷ watch ∷ remove 0 ∷ []) new_discovery)
      (specs (watch ∷ watch ∷ remove 0 ∷ []) no_watchers)
new_discovery-Refines_example = new_discovery-Refines (watch ∷ watch ∷ remove 0 ∷ [])

abbrev first_fails : ℕ → Bool
first_fails zero = true
first_fails (suc n) = false

resubscribe_ends_example :
    (w : Ended) × (resubscribe (pos 3) first_fails 9 (pos 3) 0 0 [] ≡ some w)
    × (w.subscribed ≡ not (all_fail first_fails 4 0))
    × (w.attempts ≤ 4)
    × All (λ d. d ≤ 30) w.slept
resubscribe_ends_example = resubscribe_ends 2 first_fails 9 (omega arith)

abbrev shown : List (String × String) → String
shown m = "{}"

abbrev entry : ServiceEntry
entry = record { service_address = ""; node_address = "10.0.0.9"; port = 80; meta = [] }

abbrev found : Answer
found = record { entries = entry ∷ []; index = 7; error = nil }

abbrev refused : Answer
refused = record { entries = []; index = 0; error = plain "refused" }

abbrev ran : Watch
ran = watch_rounds shown (refused ∷ found ∷ refused ∷ []) new_watch

context_path-app_example :
    context_path (char_cons slash ("app" <> char_cons slash "users")) ≡ some (char_cons slash "app")
unfolding no_slash
context_path-app_example = context_path-app "app" "users" refl

abbrev gateway : Client
gateway = record {
  connection = "Connection";
  connection_value = "Keep-Alive";
  content_type = "Content-Type";
  content_type_value = "application/json";
  token_header_key = "X-Access-Token";
  admin_username = "userName";
  admin_password = "password";
  token_path = "/platform/login";
  base_path = "/shenyu-client";
  metadata_path = "/register-metadata";
  uri_path = "/register-uri";
  rpctype_http = "http";
  miss_param = plain "missing";
  get_admin_user = λ r. ("token", nil);
  register_meta_data = λ r. (true, nil);
  do_url_register = λ r. (true, nil);
}

abbrev local : Conf
local = record {
  user_name = "admin";
  password = "123456";
  admin_url = "http://127.0.0.1:9095";
  ip = "";
}

abbrev users : HttpServer
users = record {
  routes = [];
  conf = local;
  token = "token";
  regist_service = true;
  app_name = "app";
  port = "80";
}

users_path : Below "app" "/app/users"
unfolding Below context_path
users_path = refl

registers_once_example :
    Twice gateway "10.0.0.1"
      ("/app/users" ∷ [])
      ("/app/users" ∷ [])
      users
      (begun "10.0.0.1" ("/app/users" ∷ []) users)
unfolding missing begun with_ip filled uri_register
registers_once_example =
    registers_once gateway (λ r. refl) (λ r. refl) "10.0.0.1" ("/app/users" ∷ [])
      ("/app/users" ∷ []) users refl refl (users_path, tt) (users_path, tt)

abbrev known_only : String → Bool → Bool
known_only id s = s

-- An agent that knows one service or none, and accepts every registration.
abbrev one_service : Agent
one_service = record {
  State = Bool;
  service_register = λ r s. (true, nil);
  check_register = λ r s. (s, nil);
  update_ttl = λ id s. (s, if s then nil else plain "unknown check");
  service_deregister = λ id s. (false, nil);
}

one_service-AgentLaws : AgentLaws one_service known_only
one_service-AgentLaws = record {
  register_known = λ r s h. refl;
  update_known = λ id s h. kept s h;
  update_unknown = λ id s h. h;
}
  where
    kept : (s : Bool) → (if s then nil else plain "unknown check") ≡ nil → s ≡ true
    kept true h = refl
    kept false h = absurd (cc)

abbrev users_service : Registration
users_service = record {
  id = "users-10.0.0.1-80";
  name = "users";
  tags = [];
  meta = [];
  port = 80;
  address = "10.0.0.1";
  ttl = "20s";
  deregister_after = "60s";
}

abbrev lost : Bool → Bool
lost s = false
