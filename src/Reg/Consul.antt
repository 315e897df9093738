-- ===== src/Reg/Consul.antt =====
-- The registration of a service at consul, of reg/consul/register.go and reg/consul/plugin.go: both
-- register a service with a check that its goroutine renews. The agent of consul is the record `Agent`.
pub mod Beats
pub mod Plugin
use foundation_framework.Base.{
  ℕ, zero, suc, ◌+◌, ◌-◌, ◌*◌, ◌%◌, ◌^◌, String, Bool, true, false, List, [], ◌∷◌, if◌then◌else◌,
  ltb, ◌=ˢ◌, Option, none, some, ◌≡◌,
}
use foundation_framework.Base.Int.{ℤ, pos, negsuc, ltb_ℤ, pos_part}
use foundation_framework.Base.Dict.{Dict}
use foundation_framework.Base.Decimal.{format_uint, format_int, parse_uint}
use foundation_framework.Err.{Error, nil, is_nil, plain, error_text, ◌<>◌}
use foundation_framework.Util.ListenOn.{figure_out_listen_on}

-- `consul.Conf` of zero-contrib, the fields that are read; `ttl` is an `int` of 64 bits.
pub record Conf : Type 0 where
  pub key : String
  pub tag : List String
  pub meta : Dict String
  pub ttl : ℤ

-- `api.AgentServiceRegistration` with its one check, and `api.AgentCheckRegistration`.
pub record Registration : Type 0 where
  pub id : String
  pub name : String
  pub tags : List String
  pub meta : Dict String
  pub port : ℕ
  pub address : String
  pub ttl : String
  pub deregister_after : String

pub record CheckRegistration : Type 0 where
  pub id : String
  pub name : String
  pub service_id : String
  pub ttl : String
  pub deregister_after : String

-- The calls of consul's agent that are used, on its state.
pub record Agent : Type 1 where
  pub State : Type 0
  pub service_register : Registration → State → State × Error
  pub check_register : CheckRegistration → State → State × Error
  pub update_ttl : String → State → State × Error
  pub service_deregister : String → State → State × Error

-- The value of an `int64` with the bits of `n`.
unfoldable pub to_int64 : ℕ → ℤ
to_int64 n = let m = n % 2 ^ 64 in if ltb m (2 ^ 63) then pos m else negsuc (2 ^ 64 - 1 - m)

-- 20 seconds unless the TTL is positive.
unfoldable pub positive_ttl : ℤ → ℕ
positive_ttl (pos (suc n)) = suc n
positive_ttl (pos zero) = 20
positive_ttl (negsuc n) = 20

abbrev pub second : ℕ
second = 1000000000

at_least_second : ℤ → ℕ
at_least_second d = if ltb_ℤ d (pos second) then second else pos_part d

-- The period of the ticker, in nanoseconds.
unfoldable pub ttl_ticker : ℕ → ℕ
unfolding to_int64 at_least_second
ttl_ticker ttl = at_least_second (to_int64 ((ttl - 1) * second))

-- `fmt.Sprintf("%ds", ...)` of the TTL and of its triple.
unfoldable pub ttl_text : ℕ → String
ttl_text ttl = format_uint ttl <> "s"

unfoldable pub expired_ttl : ℕ → String
unfolding to_int64
expired_ttl ttl = format_int (to_int64 (ttl * 3)) <> "s"

unfoldable pub service_id : String → String → ℕ → String
service_id name host port = name <> "-" <> host <> "-" <> format_uint port

-- `port, _ := strconv.ParseUint(ports, 10, 16)`
unfoldable pub parse_port : String → ℕ
parse_port ports = (parse_uint ports 16).0

unfoldable pub registration : Conf → String → ℕ → Registration
unfolding ttl_text expired_ttl positive_ttl service_id
registration c host port = record {
  id = service_id c.key host port;
  name = c.key;
  tags = c.tag;
  meta = c.meta;
  port = port;
  address = host;
  ttl = ttl_text (positive_ttl c.ttl);
  deregister_after = expired_ttl (positive_ttl c.ttl);
}

unfoldable pub check_of : Registration → CheckRegistration
check_of r = record {
  id = r.id;
  name = r.name;
  service_id = r.id;
  ttl = r.ttl;
  deregister_after = r.deregister_after;
}

unfoldable pub register_error : String → Error → Error
register_error name e =
    plain ("initial register service '" <> name <> "' host to consul error: " <> error_text e)

unfoldable pub check_error : Error → Error
check_error e = plain ("initial register service check to consul error: " <> error_text e)

unfoldable pub parsing_error : Error → Error
parsing_error e = plain ("failed parsing address error: " <> error_text e)

module _ (a : Agent) where
  open a use {State, service_register, check_register, update_ttl, service_deregister}

  -- Where a registration has succeeded, `beats` is the service whose check a goroutine renews, and
  -- which the shutdown of the process deregisters.
  pub record Registered : Type 0 where
    pub state : State
    pub error : Error
    pub beats : Option Registration

  checked : Registration → State × Error → Registered
  checked r (s, e) =
      if is_nil e
      then record { state = s; error = nil; beats = some r }
      else record { state = s; error = check_error e; beats = none }

  registered : Registration → State × Error → Registered
  unfolding checked
  registered r (s, e) =
      let check = checked r (check_register (check_of r) s) in
      if is_nil e
      then check
      else record { state = s; error = register_error r.name e; beats = none }

  -- The two calls of the agent, which are the same in both files.
  unfoldable pub register : Registration → State → Registered
  unfolding registered
  register r s = registered r (service_register r s)

  hosted : Conf → Error → State → (String × String) × Error → Registered
  unfolding registration parse_port
  hosted c client_error s ((host, ports), e) =
      let registers = register (registration c host (parse_port ports)) s in
      if is_nil e
      then (if is_nil client_error then registers else record {
        state = s;
        error = plain ("create consul client error: " <> error_text client_error);
        beats = none;
      })
      else record { state = s; error = parsing_error e; beats = none }

  -- `RegisterService`. `split_host_port` is net.SplitHostPort, `ip` is the IP that
  -- `figureOutListenOn` finds, and `client_error` is the error of api.NewClient.
  unfoldable pub register_service :
      (String → (String × String) × Error) → String → Error → String → Conf → State → Registered
  unfolding hosted
  register_service split_host_port ip client_error listen_on c s =
      hosted c client_error s (split_host_port (figure_out_listen_on ip listen_on))

  -- The inner loop of the goroutine of `RegisterService`: in each sleep others change the agent, by
  -- the next of `world`; false where it still tries at the end of `world`.
  unfoldable pub re_register : Registration → List (State → State) → State → State × Bool
  re_register r [] s = let (s', e) = service_register r s in (s', is_nil e)
  re_register r (w ∷ world) s =
      let (s', e) = service_register r s in
      let again = re_register r world (w s') in if is_nil e then (s', true) else again

  -- One tick of that goroutine.
  unfoldable pub beat : Registration → List (State → State) → State → State × Bool
  beat r world s =
      let (s', e) = update_ttl r.id s in
      let again = re_register r world s' in if is_nil e then (s', true) else again

  -- One tick of the goroutine of the plugin's `Register`.
  unfoldable pub plugin_beat : String → State → State
  plugin_beat id s = (update_ttl id s).0

  -- Ticks of the plugin, each after others have changed the agent.
  unfoldable pub plugin_beats : String → List (State → State) → State → State
  plugin_beats id [] s = s
  plugin_beats id (w ∷ world) s = plugin_beats id world (plugin_beat id (w s))

  -- The shutdown listener.
  unfoldable pub shutdown : Registration → State → State
  shutdown r s = (service_deregister r.id s).0
