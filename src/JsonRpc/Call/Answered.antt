-- ===== src/JsonRpc/Call/Answered.antt =====
-- What a call of jsonrpc/jsonrpc.go without an error has done.
use mathlib.Core.Path.{subst}
use foundation_framework.Base.{
  String, ◌≡◌, refl, ap, ◌∙◌, sym, Option, none, some, List, ◌==◌, Bool-cases, inl, inr, some_inj,
  arith,
}
use foundation_framework.Base.Int.{ℤ}
use foundation_framework.Base.Dict
use foundation_framework.Base.Dict.{Dict}
use foundation_framework.Err.{Error, nil, nil-cases, ◌<>◌}
use foundation_framework.Err.Stack.{Frame}
use foundation_framework.Err.Comm
use foundation_framework.JsonRpc.{selector}
use foundation_framework.JsonRpc.Call.{
  RpcError, JsonRpcResponse, Response, Selector, Client, Called, Encoding, failed, with_result,
  with_response, with_body, with_answer, with_data, with_address, selected_call, call, request_body,
}

module _ {A C R Reply : Type 0} (encoding : Encoding A C R Reply) (stack : List Frame)
    (post : String → String → Response × Error) where
  open encoding use {marshal_body, unmarshal_response, marshal_result, unmarshal_reply}

  -- What a call that posts `text` to `url` has done where it returns no error.
  pub record Answered (url text : String) (reply : Reply) (d : Called Reply) : Type 0 where
    pub posted : d.posted ≡ some (url, text)
    pub post_ok : (post url text).1 ≡ nil
    pub status_ok : (post url text).0.status_code ≡ 200
    pub body_ok : (post url text).0.body.1 ≡ nil
    pub json_ok : (unmarshal_response (post url text).0.body.0).1 ≡ nil
    pub no_error : (unmarshal_response (post url text).0.body.0).0.error ≡ none
    pub result_ok : (marshal_result (unmarshal_response (post url text).0.body.0).0.result).1 ≡ nil
    pub decoded :
        unmarshal_reply
          (marshal_result (unmarshal_response (post url text).0.body.0).0.result).0
          reply
        ≡ (d.reply, nil)

  with_result-nil :
      (m : String × Error) (reply : Reply) (sent : String × String)
      → (with_result encoding stack post m reply sent).error ≡ nil
      → (m.1 ≡ nil)
        × (unmarshal_reply m.0 reply ≡ ((with_result encoding stack post m reply sent).reply, nil))
        × ((with_result encoding stack post m reply sent).posted ≡ some sent)
  unfolding with_result failed
  with_result-nil (t, e) reply sent = elim (nil-cases e) [
    | inl n ↦ rw n (λ h. (refl, ap (λ (de : Error). ((unmarshal_reply t reply).0, de)) h, refl))
    | inr f ↦ rw f (λ h. absurd (cc))
  ]

  with_response-nil :
      (r : JsonRpcResponse R) (o : Option RpcError) (reply : Reply) (sent : String × String)
      → (with_response encoding stack post r o reply sent).error ≡ nil
      → (o ≡ none)
        × (with_response encoding stack post r o reply sent
            ≡ with_result encoding stack post (marshal_result r.result) reply sent)
  unfolding with_response failed
  with_response-nil r none reply sent = λ h. (refl, refl)
  with_response-nil r (some e) reply sent = λ h. absurd (cc)

  with_body-nil :
      (b : String × Error) (reply : Reply) (sent : String × String)
      → (with_body encoding stack post b reply sent).error ≡ nil
      → (b.1 ≡ nil)
        × ((unmarshal_response b.0).1 ≡ nil)
        × (with_body encoding stack post b reply sent
            ≡ with_response encoding stack post
                (unmarshal_response b.0).0
                (unmarshal_response b.0).0.error
                reply
                sent)
  unfolding with_body failed
  with_body-nil (t, e) reply sent = elim (nil-cases e) [
    | inl n ↦ rw n (elim (nil-cases (unmarshal_response t).1) [
      | inl m ↦ rw m (λ h. (refl, refl, refl))
      | inr g ↦ rw g (λ h. absurd (cc))
    ])
    | inr f ↦ rw f (λ h. absurd (cc))
  ]

  with_answer-nil :
      (p : Response × Error) (reply : Reply) (sent : String × String)
      → (with_answer encoding stack post p reply sent).error ≡ nil
      → (p.1 ≡ nil)
        × (p.0.status_code ≡ 200)
        × (with_answer encoding stack post p reply sent
            ≡ with_body encoding stack post p.0.body reply sent)
  unfolding with_answer failed Comm.new
  with_answer-nil (a, e) reply sent = elim (nil-cases e) [
    | inl n ↦ rw n (elim (Bool-cases (a.status_code == 200)) [
      | inl t ↦ rw t (λ h. (refl, ground arith, refl))
      | inr f ↦ rw f (λ h. absurd (cc))
    ])
    | inr f ↦ rw f (λ h. absurd (cc))
  ]

  answered :
      (url text : String) (reply : Reply)
      → (with_answer encoding stack post (post url text) reply (url, text)).error ≡ nil
      → Answered url text reply (with_answer encoding stack post (post url text) reply (url, text))
  answered url text reply h =
      let p = post url text in
      let r = unmarshal_response p.0.body.0 in
      let (post_ok, status_ok, same) = with_answer-nil p reply (url, text) h in
      let (body_ok, json_ok, same_body) =
        with_body-nil p.0.body reply (url, text)
          (ap (λ (d : Called Reply). d.error) (sym same) ∙ h) in
      let (no_error, same_response) =
        with_response-nil r.0 r.0.error reply (url, text)
          (ap (λ (d : Called Reply). d.error) (sym (same ∙ same_body)) ∙ h) in
      let all_same = same ∙ same_body ∙ same_response in
      let (result_ok, decoded, posted) =
        with_result-nil (marshal_result r.0.result) reply (url, text)
          (ap (λ (d : Called Reply). d.error) (sym all_same) ∙ h) in
      record {
        posted = ap (λ (d : Called Reply). d.posted) all_same ∙ posted;
        post_ok = post_ok;
        status_ok = status_ok;
        body_ok = body_ok;
        json_ok = json_ok;
        no_error = no_error;
        result_ok = result_ok;
        decoded = decoded ∙ ap (λ (d : Called Reply). (d.reply, nil)) (sym all_same);
      }

  with_data-nil :
      (address : String) (m : String × Error) (reply : Reply)
      → (with_data encoding stack post address m reply).error ≡ nil
      → (m.1 ≡ nil)
        × Answered ("http://" <> address) m.0 reply (with_data encoding stack post address m reply)
  unfolding with_data
  with_data-nil address (text, e) reply = elim (nil-cases e) [
    | inl n ↦ rw n (λ h. (refl, answered ("http://" <> address) text reply h))
    | inr f ↦ rw f (λ h. absurd (cc))
  ]

  -- A call to the service of selector `s` that has been answered by one of its addresses.
  pub record Selected (now : ℤ) (method : String) (args : A) (context : Option C) (reply : Reply)
      (s : Selector) (d : Called Reply) : Type 0 where
    pub address : String
    pub selected : (selector stack s.services s.round_robin).1 ≡ some (address, nil)
    pub body_ok : (marshal_body (request_body now method args context)).1 ≡ nil
    pub answered :
        Answered
          ("http://" <> address)
          (marshal_body (request_body now method args context)).0
          reply
          d

  with_address-nil :
      (now : ℤ) (method : String) (args : A) (context : Option C) (reply : Reply)
      (o : Option (String × Error)) (d : Called Reply)
      → with_address encoding stack post now method args context reply o ≡ some d
      → d.error ≡ nil
      → (address : String) × (o ≡ some (address, nil))
        × ((marshal_body (request_body now method args context)).1 ≡ nil)
        × Answered
            ("http://" <> address)
            (marshal_body (request_body now method args context)).0
            reply
            d
  unfolding with_address
  with_address-nil now method args context reply none d = λ e h. absurd (cc)
  with_address-nil now method args context reply (some (address, e)) d = elim (nil-cases e) [
    | inl n ↦ rw n (λ q h.
        let m = marshal_body (request_body now method args context) in
        let same = some_inj q in
        let (ok, a) = with_data-nil address m reply (ap (λ (x : Called Reply). x.error) same ∙ h) in
        (address, refl, ok, subst (Answered ("http://" <> address) m.0 reply) same a))
    | inr f ↦ rw f (λ q h. absurd (cc (ap (λ (x : Called Reply). x.error) (some_inj q))))
  ]

  selected_call-nil :
      (now : ℤ) (name method : String) (args : A) (context : Option C) (reply : Reply)
      (o : Option Selector) (client : Client) (d : Called Reply)
      → (selected_call encoding stack post now name method args context reply o client).1 ≡ some d
      → d.error ≡ nil
      → (s : Selector) × (o ≡ some s) × Selected now method args context reply s d
  unfolding selected_call Comm.new
  selected_call-nil now name method args context reply none client d q h =
      absurd (cc (ap (λ (x : Called Reply). x.error) (some_inj q)))
  selected_call-nil now name method args context reply (some s) client d q h =
      let (address, selected, ok, a) =
        with_address-nil now method args context reply (selector stack s.services s.round_robin).1 d
          q h in
      (s, refl, record { address = address; selected = selected; body_ok = ok; answered = a })

  -- A call without an error has posted its request to the address that the selector of its service
  -- has chosen, was answered 200 with a response without an error, and its reply is the result of the
  -- response, decoded: no step's error is swallowed.
  pub call-Selected :
      (now : ℤ) (name method : String) (args : A) (context : Option C) (reply : Reply)
      (client : Client) (d : Called Reply)
      → (call encoding stack post now name method args context reply client).1 ≡ some d
      → d.error ≡ nil
      → (s : Selector) × (Dict.get client.discovery_map name ≡ some s)
        × Selected now method args context reply s d
  unfolding call
  call-Selected now name method args context reply client d q h =
      selected_call-nil now name method args context reply (Dict.get client.discovery_map name)
        client d q h
