-- ===== src/Xxl/Registration/Sent/Heartbeats.antt =====
-- When an executor registers at the scheduler: the loop of `registry` of xxl/executor.go with its
-- timer.
use foundation_framework.Base.{
  ℕ, ◌+◌, ◌-◌, ◌<◌, ◌≤◌, ◌==◌, ◌≢◌, String, ◌≡◌, refl, sym, ap, ◌∙◌, Bool, true, false, some, List,
  [], ◌∷◌, ◌++◌, All, arith, ◌⊎◌, inl, inr, map, Bool-cases,
}
use mathlib.Core.List.{append-nil, append_assoc}
use foundation_framework.Base.Int.{pos, eqb_ℤ}
use foundation_framework.Err.{Error, nil, is_nil, nil-cases, ◌<>◌}
use foundation_framework.Xxl.Dto.{Body, decoded, refused, null, Res, Registry}
use foundation_framework.Xxl.Reply.{Reply}
use foundation_framework.Xxl.Options.{Conf, executor_options, executor_options_lem}
use foundation_framework.Xxl.Registration.Sent.{to_scheduler, configured, registry_param_lem}
use foundation_framework.Xxl.Registration.{
  Post, Logged, Response, Process, Event, turn, pass, answer, start, post, judged, heard, posted,
  with_logged, registry, registry_answered, step, steps,
}

-- One round of the loop: the answer comes `answered` seconds after the request, the loop gets a turn
-- `idle` seconds later and another one `more` seconds after that.
pub record Round : Type 0 where
  pub response : Response
  pub answered : ℕ
  pub idle : ℕ
  pub more : ℕ

abbrev pub events : List Round → List Event
events [] = []
events (b ∷ bs) =
    turn ∷ pass b.answered ∷ answer b.response ∷ pass b.idle ∷ turn ∷ pass b.more ∷ events bs

module _ (new_request : String → Error) (marshal : Registry → String)
    (marshal_reply : Reply → String) (internal_ip : String) (c : Conf) where
  accepted :
      (action body : String)
      → new_request (c.admin_address <> action) ≡ nil
      → post new_request marshal marshal_reply (executor_options internal_ip c) action body
        ≡ (nil, some (to_scheduler new_request marshal marshal_reply internal_ip c action body))
  unfolding post
  accepted action body ok = rw (executor_options_lem internal_ip c) (rw ok refl)

  -- A response that does not make the executor dereference nil.
  abbrev pub IsRead : Response → Type 0
  IsRead r = (is_nil r.do_error ≡ false) ⊎ ((is_nil r.read_error ≡ false) ⊎ (r.decoded ≢ null))

  -- A round whose first turns after the request come before its 20 seconds are over, and whose next
  -- one comes after them, and whose response is read.
  abbrev pub IsTimely : Round → Type 0
  IsTimely b = IsRead b.response × (b.answered + b.idle < 20) × (20 ≤ b.answered + b.idle + b.more)

  abbrev live : List Post → List Logged → Bool → ℕ → Bool → Process
  live sent logged serving due asking = record {
    sent = sent;
    logged = logged;
    serving = serving;
    crashed = false;
    due = due;
    asking = asking;
  }

  abbrev registration : Post
  registration =
      to_scheduler new_request marshal marshal_reply internal_ip c "/api/registry"
        (configured new_request marshal marshal_reply internal_ip c)

  judged-live :
      (sent : List Post) (logged : List Logged) (v : Bool) (d : ℕ) (body : String) (b : Body Res)
      → b ≢ null
      → (logged' : List Logged) × (judged new_request marshal marshal_reply
            (executor_options internal_ip c)
            (live sent logged v d false)
            body
            b
          ≡ live sent logged' v d false)
  unfolding judged with_logged
  judged-live sent logged v d body null h = absurd (h refl)
  judged-live sent logged v d body (decoded r) h = elim (Bool-cases (eqb_ℤ r.code (pos 200))) [
    | inl y ↦ rw y (_, refl)
    | inr n ↦ rw n (_, refl)
  ]
  judged-live sent logged v d body (refused r) h = elim (Bool-cases (eqb_ℤ r.code (pos 200))) [
    | inl y ↦ rw y (_, refl)
    | inr n ↦ rw n (_, refl)
  ]

  heard-live :
      (sent : List Post) (logged : List Logged) (v : Bool) (d : ℕ) (r : Response)
      → IsRead r
      → (logged' : List Logged) × (step new_request marshal marshal_reply
            (executor_options internal_ip c)
            (answer r)
            (live sent logged v d true)
          ≡ live sent logged' v d false)
  unfolding step registry_answered heard with_logged
  heard-live sent logged v d r (inl b) = rw b (_, refl)
  heard-live sent logged v d r (inr (inl b)) = elim (nil-cases r.do_error) [
    | inl n ↦ rw (n, b) (_, refl)
    | inr m ↦ rw m (_, refl)
  ]
  heard-live sent logged v d r (inr (inr b)) = elim (nil-cases r.do_error) [
    | inr m ↦ rw m (_, refl)
    | inl n ↦ elim (nil-cases r.read_error) [
      | inr m ↦ rw (n, m) (_, refl)
      | inl m ↦ rw (n, m) (judged-live sent logged v d r.body r.decoded b)
    ]
  ]

  sends :
      (sent : List Post) (logged : List Logged) (v : Bool)
      → ((action : String) → new_request (c.admin_address <> action) ≡ nil)
      → step new_request marshal marshal_reply
          (executor_options internal_ip c)
          turn
          (live sent logged v 0 false)
        ≡ live (sent ++ registration ∷ []) logged v 20 true
  unfolding step registry posted
  sends sent logged v ok =
      rw
        (
          (registry_param_lem new_request marshal marshal_reply internal_ip c),
          accepted "/api/registry" (configured new_request marshal marshal_reply internal_ip c)
              (ok "/api/registry"),
        )
        refl

  waits :
      (sent : List Post) (logged : List Logged) (v : Bool) (d : ℕ)
      → d == 0 ≡ false
      → step new_request marshal marshal_reply
          (executor_options internal_ip c)
          turn
          (live sent logged v d false)
        ≡ live sent logged v d false
  unfolding step registry
  waits sent logged v d h = rw h refl

  round_from :
      (b : Round) (bs : List Round) (sent : List Post) (logged : List Logged) (v : Bool)
      → ((action : String) → new_request (c.admin_address <> action) ≡ nil)
      → IsTimely b
      → (logged' : List Logged) × (steps new_request marshal marshal_reply
            (executor_options internal_ip c)
            (events (b ∷ bs))
            (live sent logged v 0 false)
          ≡ steps new_request marshal marshal_reply
              (executor_options internal_ip c)
              (events bs)
              (live (sent ++ registration ∷ []) logged' v 0 false))
  unfolding steps step
  round_from b bs sent logged v ok (read, early, late) =
      let posts = sent ++ registration ∷ [] in
      let run : List Event → Process → Process =
        steps new_request marshal marshal_reply (executor_options internal_ip c) in
      let (logged', h) = heard-live posts logged v (20 - b.answered) b.response read in
      let due : (20 - b.answered) - b.idle == 0 ≡ false = ground arith in
      let over : ((20 - b.answered) - b.idle) - b.more ≡ 0 = omega arith in
      (
        logged',
        ap
              (run (
                pass b.answered ∷ answer b.response ∷ pass b.idle ∷ turn ∷ pass b.more ∷ events bs))
              (sends sent logged v ok)
            ∙ ap (run (pass b.idle ∷ turn ∷ pass b.more ∷ events bs)) h
            ∙ ap (run (pass b.more ∷ events bs))
                (waits posts logged' v ((20 - b.answered) - b.idle) due)
            ∙ ap (λ (d : ℕ). run (events bs) (live posts logged' v d false)) over,
      )

  heartbeats_from :
      (bs : List Round) (sent : List Post) (logged : List Logged) (v : Bool)
      → ((action : String) → new_request (c.admin_address <> action) ≡ nil)
      → All IsTimely bs
      → ((steps new_request marshal marshal_reply
            (executor_options internal_ip c)
            (events bs)
            (live sent logged v 0 false)).sent
          ≡ sent ++ map (λ b. registration) bs)
        × ((steps new_request marshal marshal_reply
              (executor_options internal_ip c)
              (events bs)
              (live sent logged v 0 false)).crashed
            ≡ false)
  unfolding steps
  heartbeats_from [] sent logged v ok h = (sym (append-nil sent), refl)
  heartbeats_from (b ∷ bs) sent logged v ok h =
      let (logged', e) = round_from b bs sent logged v ok h.0 in
      let (t, alive) = heartbeats_from bs (sent ++ registration ∷ []) logged' v ok h.1 in
      (
        ap (λ (p : Process). p.sent) e ∙ t ∙ append_assoc sent _ _,
        ap (λ (p : Process). p.crashed) e ∙ alive,
      )

  -- As long as the URL is accepted, each request is answered in less than 20 seconds and no body is
  -- the JSON `null`: the executor registers at its start and then at the first turn of its loop after
  -- 20 seconds and at none before, whatever the requests fail with and the scheduler answers, and the
  -- process lives on.
  pub heartbeats :
      (bs : List Round)
      → ((action : String) → new_request (c.admin_address <> action) ≡ nil)
      → All IsTimely bs
      → ((steps new_request marshal marshal_reply
            (executor_options internal_ip c)
            (events bs)
            start).sent
          ≡ map
              (λ b.
                to_scheduler new_request marshal marshal_reply internal_ip c "/api/registry"
                  (configured new_request marshal marshal_reply internal_ip c))
              bs)
        × ((steps new_request marshal marshal_reply
              (executor_options internal_ip c)
              (events bs)
              start).crashed
            ≡ false)
  unfolding start
  heartbeats bs ok h = heartbeats_from bs [] [] true ok h
