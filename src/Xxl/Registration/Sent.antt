-- ===== src/Xxl/Registration/Sent.antt =====
-- What an executor sends to the scheduler: the posts of xxl/executor.go, and when.
pub mod Heartbeats
use foundation_framework.Base.{
  ◌≢◌, not, ◌&&◌, ◌==◌, String, ◌≡◌, refl, sym, ap, ◌∙◌, Bool, true, false, none, some, List, [],
  ◌∷◌, ◌++◌, All, All-append, if◌then◌else◌, arith, ◌⊎◌, inl, inr, map,
}
use mathlib.Core.List.{append-nil, append_assoc}
use foundation_framework.Base.Int.{ℤ}
use foundation_framework.Err.{Error, nil, is_nil, nil-cases, ◌<>◌}
use foundation_framework.Xxl.Dto.{Body, decoded, refused, null, Res, Registry, RunReq}
use foundation_framework.Xxl.Reply.{Reply, return_call}
use foundation_framework.Xxl.Options.{
  Conf, executor_options, executor_options_lem, address, or_default,
}
use foundation_framework.Xxl.Registration.{
  Post, Logged, Response, Process, Event, turn, pass, answer, task_end, signal, start, post,
  registry_param, with_sent, judged, heard, posted, with_logged, registry, registry_answered,
  registry_remove, post_callback, quit, step, steps,
}

module _ (new_request : String → Error) (marshal : Registry → String)
    (marshal_reply : Reply → String) (internal_ip : String) (c : Conf) where
  -- The registration that the configuration asks for.
  abbrev configured : String
  configured = marshal (record {
    registry_group = "EXECUTOR";
    registry_key = or_default c.app_name "golang-jobs";
    registry_value =
        "http://" <> or_default c.client_ip internal_ip <> ":" <> or_default c.client_port "9999";
  })

  -- A registration, a removal, or a callback, with the configured token at the configured address.
  abbrev pub IsOurs : Post → Type 0
  IsOurs q =
      (q.access_token ≡ c.token)
      × (q.content_type ≡ "application/json;charset=UTF-8")
      × (((q.url ≡ c.admin_address <> "/api/registry") × (q.body ≡ configured))
          ⊎ (((q.url ≡ c.admin_address <> "/api/registryRemove") × (q.body ≡ configured))
              ⊎ (q.url ≡ c.admin_address <> "/api/callback")))

  registry_param_lem :
      registry_param new_request marshal marshal_reply (executor_options internal_ip c) ≡ configured
  unfolding registry_param address
  registry_param_lem = rw (executor_options_lem internal_ip c) refl

  -- The post of an accepted URL.
  abbrev to_scheduler : String → String → Post
  to_scheduler action body = record {
    url = c.admin_address <> action;
    content_type = "application/json;charset=UTF-8";
    access_token = c.token;
    timeout = 0;
    body = body;
  }

  post-cases :
      (action body : String)
      → (post new_request marshal marshal_reply (executor_options internal_ip c) action body
          ≡ (nil, some (to_scheduler action body)))
        ⊎ (post new_request marshal marshal_reply (executor_options internal_ip c) action body
            ≡ (new_request (c.admin_address <> action), none))
  unfolding post
  post-cases action body =
      rw (executor_options_lem internal_ip c)
        (elim (nil-cases (new_request (c.admin_address <> action))) [
          | inl n ↦ rw n (inl refl)
          | inr b ↦ rw b (inr refl)
        ])

  judged-sent :
      (p : Process) (body : String) (b : Body Res)
      → (judged new_request marshal marshal_reply (executor_options internal_ip c) p body b).sent
        ≡ p.sent
  unfolding judged with_logged
  judged-sent p body null = refl
  judged-sent p body (decoded r) = ground arith
  judged-sent p body (refused r) = ground arith

  heard-sent :
      (p : Process) (r : Response)
      → (heard new_request marshal marshal_reply (executor_options internal_ip c) p r).sent ≡ p.sent
  unfolding heard with_logged
  heard-sent p r = elim (nil-cases r.do_error) [
    | inr b ↦ rw b refl
    | inl n ↦ rw n (elim (nil-cases r.read_error) [
      | inr b ↦ rw b refl
      | inl m ↦ rw m (judged-sent p r.body r.decoded)
    ])
  ]

  IsOurs-more :
      (p : Process) (q : Post) → All IsOurs p.sent → IsOurs q → All IsOurs (p.sent ++ q ∷ [])
  IsOurs-more p q h k = All-append IsOurs p.sent (q ∷ []) h (k, tt)

  if-IsOurs :
      (b : Bool) (p q : Process)
      → All IsOurs p.sent
      → All IsOurs q.sent
      → All IsOurs (if b then p else q).sent
  if-IsOurs true p q h k = h
  if-IsOurs false p q h k = k

  posted-IsOurs :
      (p : Process)
      → All IsOurs p.sent
      → All IsOurs
          (posted new_request marshal marshal_reply (executor_options internal_ip c) p (
            post new_request marshal marshal_reply
              (executor_options internal_ip c)
              "/api/registry"
              configured)).sent
  unfolding posted with_logged
  posted-IsOurs p h = elim (post-cases "/api/registry" configured) [
    | inr e ↦ rw e h
    | inl e ↦
        rw e
          (IsOurs-more p (to_scheduler "/api/registry" configured) h (refl, refl, inl (refl, refl)))
  ]

  registry-IsOurs :
      (p : Process)
      → All IsOurs p.sent
      → All IsOurs
          (registry new_request marshal marshal_reply (executor_options internal_ip c) p).sent
  unfolding registry
  registry-IsOurs p h =
      rw registry_param_lem
        (if-IsOurs (not p.asking && p.due == 0) _ p (posted-IsOurs (record p { due = 20 }) h) h)

  registry_answered-IsOurs :
      (r : Response) (p : Process)
      → All IsOurs p.sent
      → All IsOurs
          (registry_answered new_request marshal marshal_reply
            (executor_options internal_ip c)
            r
            p).sent
  unfolding registry_answered
  registry_answered-IsOurs r p h =
      if-IsOurs p.asking _ p (rw (heard-sent (record p { asking = false }) r) h) h

  registry_remove-IsOurs :
      (p : Process)
      → All IsOurs p.sent
      → All IsOurs
          (registry_remove new_request marshal marshal_reply
            (executor_options internal_ip c)
            p).sent
  unfolding registry_remove with_sent
  registry_remove-IsOurs p h =
      rw registry_param_lem (elim (post-cases "/api/registryRemove" configured) [
        | inr e ↦ rw e h
        | inl e ↦ rw e (
            IsOurs-more p (to_scheduler "/api/registryRemove" configured) h
              (refl, refl, inr (inl (refl, refl))))
      ])

  post_callback-IsOurs :
      (q : RunReq) (code : ℤ) (msg : String) (p : Process)
      → All IsOurs p.sent
      → All IsOurs
          (post_callback new_request marshal marshal_reply
            (executor_options internal_ip c)
            q
            code
            msg
            p).sent
  unfolding post_callback with_sent
  post_callback-IsOurs q code msg p h =
      elim (post-cases "/api/callback" (marshal_reply (return_call q code msg))) [
        | inr e ↦ rw e h
        | inl e ↦ rw e (
            IsOurs-more p (to_scheduler "/api/callback" (marshal_reply (return_call q code msg))) h
              (refl, refl, inr (inr refl)))
      ]

  step-IsOurs :
      (ev : Event) (p : Process)
      → All IsOurs p.sent
      → All IsOurs
          (step new_request marshal marshal_reply (executor_options internal_ip c) ev p).sent
  unfolding step quit
  step-IsOurs turn p h = if-IsOurs p.crashed p _ h (registry-IsOurs p h)
  step-IsOurs (pass n) p h = if-IsOurs p.crashed p _ h h
  step-IsOurs (answer r) p h = if-IsOurs p.crashed p _ h (registry_answered-IsOurs r p h)
  step-IsOurs (task_end q code msg) p h =
      if-IsOurs p.crashed p _ h (post_callback-IsOurs q code msg p h)
  step-IsOurs signal p h =
      if-IsOurs p.crashed p _ h (if-IsOurs p.serving _ p (registry_remove-IsOurs p h) h)

  steps_from-IsOurs :
      (evs : List Event) (p : Process)
      → All IsOurs p.sent
      → All IsOurs
          (steps new_request marshal marshal_reply (executor_options internal_ip c) evs p).sent
  unfolding steps
  steps_from-IsOurs [] p h = h
  steps_from-IsOurs (ev ∷ evs) p h = steps_from-IsOurs evs _ (step-IsOurs ev p h)

  -- Whatever happens to the executor of a configuration, each request that it sends carries the
  -- configured token to the configured address of the scheduler, and is a registration or a removal
  -- of the configured name and address, where defaults stand for what is empty, or a callback.
  pub steps-IsOurs :
      (evs : List Event)
      → All IsOurs
          (steps new_request marshal marshal_reply (executor_options internal_ip c) evs start).sent
  unfolding start
  steps-IsOurs evs = steps_from-IsOurs evs start tt
