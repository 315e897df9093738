-- ===== src/Xxl/Registration.antt =====
-- How the executor talks to the scheduler: `post`, `registry`, `registryRemove`, `callback`'s post
-- and the end of `run` of xxl/executor.go. The HTTP client and `encoding/json` are parameters.
pub mod Sent
use foundation_framework.Base.{
  ℕ, zero, suc, ◌-◌, ◌==◌, not, ◌&&◌, String, ◌≡◌, refl, ap, Bool, true, false, Option, none, some,
  List, [], ◌∷◌, ◌++◌, if◌then◌else◌, ◌=ˢ◌, All, All-append, ◌⊎◌, inl, inr,
}
use foundation_framework.Base.Int.{ℤ, pos, eqb_ℤ}
use foundation_framework.Err.{Error, nil, is_nil, error_text, nil-cases, ◌<>◌}
use foundation_framework.Xxl.Dto.{Body, decoded, refused, null, Res, Registry, RunReq}
use foundation_framework.Xxl.Reply.{Reply, return_call}
use foundation_framework.Xxl.Options.{
  Conf, Options, executor_options, executor_options_lem, address, or_default, default_executor_port,
  default_registry_key,
}

-- The handlers of the server that `run` starts.
pub data Route : Type 0 where
  run_task kill_task task_log beat idle_beat : Route

-- The handler of a path; the multiplexer answers any other one by 404.
unfoldable pub route : String → Option Route
route path =
    if path =ˢ "/run"
    then some run_task
    else (if path =ˢ "/kill"
        then some kill_task
        else (if path =ˢ "/log"
            then some task_log
            else (if path =ˢ "/beat"
                then some beat
                else (if path =ˢ "/idleBeat" then some idle_beat else none))))

-- A request that was given to the HTTP client.
pub record Post : Type 0 where
  pub url : String
  pub content_type : String
  pub access_token : String
  pub timeout : ℕ
  pub body : String

-- What comes back: the error of `client.Do`, or the error of reading the body, the body, and what
-- `json.Unmarshal` makes of it.
pub record Response : Type 0 where
  pub do_error : Error
  pub read_error : Error
  pub body : String
  pub decoded : Body Res

-- What a call of `registry`'s body logs.
pub data Logged : Type 0 where
  failed succeeded : String → Logged

-- `sent` is what was given to the client, `serving` whether `run` still waits for a signal,
-- `crashed` whether a goroutine without `recover` has panicked, which ends the process. `due` is the
-- number of seconds until the timer of `registry` fires: at 0 its tick waits in the channel. `asking`
-- is whether its loop waits for the answer to a request.
pub record Process : Type 0 where
  pub sent : List Post
  pub logged : List Logged
  pub serving : Bool
  pub crashed : Bool
  pub due : ℕ
  pub asking : Bool

unfoldable pub start : Process
start = record { sent = []; logged = []; serving = true; crashed = false; due = 0; asking = false }

-- What happens to the process: the loop of `registry` gets its turn, seconds pass, the answer to its
-- request comes, a task ends, a signal arrives.
pub data Event : Type 0 where
  turn : Event
  pass : ℕ → Event
  answer : Response → Event
  task_end : RunReq → ℤ → String → Event
  signal : Event

-- `new_request` is the error of `http.NewRequest` for a URL.
module _ (new_request : String → Error) (marshal : Registry → String)
    (marshal_reply : Reply → String) (o : Options) where
  -- `post`: the error, or the request that the client sends.
  unfoldable pub post : String → String → Error × Option Post
  post action body =
      let e = new_request (o.server_addr <> action) in
      if is_nil e
      then (
        nil,
        some (record {
          url = o.server_addr <> action;
          content_type = "application/json;charset=UTF-8";
          access_token = o.access_token;
          timeout = o.timeout;
          body = body;
        }),
      )
      else (e, none)

  -- The JSON of the `Registry` of both requests.
  unfoldable pub registry_param : String
  unfolding address
  registry_param = marshal (record {
    registry_group = "EXECUTOR";
    registry_key = o.registry_key;
    registry_value = "http://" <> address o;
  })

  with_sent : Process → Option Post → Process
  with_sent p none = p
  with_sent p (some q) = record p { sent = p.sent ++ q ∷ [] }

  unfoldable pub with_logged : Process → Logged → Process
  with_logged p l = record p { logged = p.logged ++ l ∷ [] }

  -- The test of `res.Code`: the JSON `null` has set the pointer to nil.
  judged : Process → String → Body Res → Process
  unfolding with_logged
  judged p body null = record p { crashed = true }
  judged p body (decoded r) =
      if eqb_ℤ r.code (pos 200)
      then with_logged p (succeeded ("执行器注册成功:" <> body))
      else with_logged p (failed ("执行器注册失败3:" <> body))
  judged p body (refused r) =
      if eqb_ℤ r.code (pos 200)
      then with_logged p (succeeded ("执行器注册成功:" <> body))
      else with_logged p (failed ("执行器注册失败3:" <> body))

  heard : Process → Response → Process
  unfolding with_logged judged
  heard p r =
      if is_nil r.do_error
      then (if is_nil r.read_error
          then judged p r.body r.decoded
          else with_logged p (failed ("执行器注册失败2:" <> error_text r.read_error)))
      else with_logged p (failed ("执行器注册失败1:" <> error_text r.do_error))

  posted : Process → Error × Option Post → Process
  unfolding with_logged
  posted p (e, none) = with_logged p (failed ("执行器注册失败1:" <> error_text e))
  posted p (e, some q) = record p { sent = p.sent ++ q ∷ []; asking = true }

  -- A turn of `registry`'s loop: if it does not wait for an answer and the timer has fired, it sets
  -- the timer to 20 seconds and sends the registration.
  unfoldable pub registry : Process → Process
  unfolding posted post registry_param
  registry p =
      let next = posted (record p { due = 20 }) (post "/api/registry" registry_param) in
      if not p.asking && p.due == 0 then next else p

  -- The rest of the loop's body, once the answer is there.
  unfoldable pub registry_answered : Response → Process → Process
  unfolding heard
  registry_answered r p = if p.asking then heard (record p { asking = false }) r else p

  -- `registryRemove`; what it logs is left out.
  unfoldable pub registry_remove : Process → Process
  unfolding with_sent post registry_param
  registry_remove p = with_sent p (post "/api/registryRemove" registry_param).1

  -- The request that `callback` sends.
  unfoldable pub post_callback : RunReq → ℤ → String → Process → Process
  unfolding with_sent post
  post_callback req code msg p =
      with_sent p (post "/api/callback" (marshal_reply (return_call req code msg))).1

  -- The end of `run`, on the first signal: the loop of `registry` is not stopped.
  unfoldable pub quit : Process → Process
  unfolding registry_remove
  quit p = if p.serving then record (registry_remove p) { serving = false } else p

  unfoldable pub step : Event → Process → Process
  unfolding registry registry_answered post_callback quit
  step turn p = if p.crashed then p else registry p
  step (pass n) p = if p.crashed then p else record p { due = p.due - n }
  step (answer r) p = if p.crashed then p else registry_answered r p
  step (task_end req code msg) p = if p.crashed then p else post_callback req code msg p
  step signal p = if p.crashed then p else quit p

  unfoldable pub steps : List Event → Process → Process
  unfolding step
  steps [] p = p
  steps (ev ∷ evs) p = steps evs (step ev p)
