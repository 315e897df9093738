-- ===== src/Handler/Context/Fine.antt =====
-- Getters of common/security/context.go that do not panic, and the contexts that they leave: the
-- type assertions of `giimallContext` hold.
use foundation_framework.Base.{
  String, ◌≢◌, refl, inl, inr, Bool-cases, Option, none, some, List, [], ◌∷◌, ◌=ˢ◌,
}
use foundation_framework.Err.{Error, is_nil}
use foundation_framework.Handler.Amazon.{AmazonUser}
use foundation_framework.Handler.Dto.{RequestContext, XRequestContext, UserInfo, ShopSettings}
use foundation_framework.Handler.Context.{
  Value, request_context, shop_settings, amazon_user, Context, Got, got, panicked, value_of,
  with_value, is_empty_string, resolve_context, incoming_context, as_request_context,
  get_request_context, x_request_context, get_x_request_context, request_id, get_request_id,
  decoded_settings, as_shop_settings, get_shop_settings, user_info, get_login_user, get_amazon_user,
  request_context_key, shop_settings_key,
}

-- A getter that has not panicked and leaves a context of the kind `P`.
pub record Fine {A F : Type 0} (P : Context F → Type 0) (r : Got A × Context F) : Type 0 where
  pub fine : r.0 ≢ panicked
  pub kind : P r.1

got-Fine :
    {A F : Type 0} {P : Context F → Type 0} (o : Option A) (ctx : Context F)
    → P ctx
    → Fine P (got o, ctx)
got-Fine o ctx h = record { fine = λ e. absurd (cc); kind = h }

module _ {F : Type 0} where
  -- What the value under a key must be for its assertion: missing, or of the type that is asserted.
  abbrev pub HoldsContext : Option (Value F) → Type 0
  HoldsContext none = Unit
  HoldsContext (some (request_context c)) = Unit
  HoldsContext (some (shop_settings s)) = ⊥
  HoldsContext (some (amazon_user u)) = ⊥

  abbrev pub HoldsSettings : Option (Value F) → Type 0
  HoldsSettings none = Unit
  HoldsSettings (some (shop_settings s)) = Unit
  HoldsSettings (some (request_context c)) = ⊥
  HoldsSettings (some (amazon_user u)) = ⊥

  abbrev pub HoldsUser : Option (Value F) → Type 0
  HoldsUser none = Unit
  HoldsUser (some (amazon_user u)) = Unit
  HoldsUser (some (request_context c)) = ⊥
  HoldsUser (some (shop_settings s)) = ⊥

  abbrev pub Fits : Context F → Type 0
  Fits ctx =
      HoldsContext (value_of request_context_key ctx.values)
      × HoldsSettings (value_of shop_settings_key ctx.values)

  abbrev pub FitsUser : Context F → Type 0
  FitsUser ctx = HoldsUser (value_of request_context_key ctx.values)

  with_context-Fits :
      (c : Option RequestContext) (ctx : Context F)
      → Fits ctx
      → Fits (with_value request_context_key (request_context c) ctx)
  unfolding with_value value_of
  with_context-Fits c ctx h = (tt, h.1)

  with_settings-Fits :
      (s : Option (ShopSettings F)) (ctx : Context F)
      → Fits ctx
      → Fits (with_value shop_settings_key (shop_settings s) ctx)
  unfolding with_value value_of
  with_settings-Fits s ctx h = (h.0, tt)

  with_user-FitsUser :
      (u : Option AmazonUser) (ctx : Context F)
      → FitsUser (with_value request_context_key (amazon_user u) ctx)
  unfolding with_value value_of
  with_user-FitsUser u ctx = tt

module _ {F : Type 0} (trim_space : String → String) (query_unescape : String → String × Error)
    (query_escape : String → String) (decode_context : String → RequestContext × Error)
    (decode_settings : String → ShopSettings F × Error)
    (decode_user : String → AmazonUser × Error) where
  abbrev pub Getter : Type 0 → Type 0
  Getter A = Context F → Got A × Context F

  abbrev pub the_request_context : Getter RequestContext
  the_request_context =
      get_request_context trim_space query_unescape query_escape decode_context decode_settings
        decode_user

  abbrev pub the_request_id : Getter String
  the_request_id =
      get_request_id trim_space query_unescape query_escape decode_context decode_settings
        decode_user

  abbrev pub the_x_request_context : Getter XRequestContext
  the_x_request_context =
      get_x_request_context trim_space query_unescape query_escape decode_context decode_settings
        decode_user

  abbrev pub the_shop_settings : Getter (ShopSettings F)
  the_shop_settings =
      get_shop_settings trim_space query_unescape query_escape decode_context decode_settings
        decode_user

  abbrev pub the_login_user : Getter UserInfo
  the_login_user =
      get_login_user trim_space query_unescape query_escape decode_context decode_settings
        decode_user

  abbrev pub the_amazon_user : Getter AmazonUser
  the_amazon_user =
      get_amazon_user trim_space query_unescape query_escape decode_context decode_settings
        decode_user

  incoming-Fine :
      (hs : List String) (ctx : Context F)
      → Fits ctx
      → Fine Fits (
          incoming_context trim_space query_unescape query_escape decode_context decode_settings
            decode_user hs ctx)
  unfolding incoming_context is_empty_string
  incoming-Fine [] ctx h = (got-Fine none ctx (h))
  incoming-Fine (header ∷ hs) ctx h =
      let (s, ue) = query_unescape header in
      let (c, je) = decode_context s in
      elim (Bool-cases (is_nil ue)) [
        | inr f ↦ rw f (got-Fine none ctx h)
        | inl t ↦ rw t (elim (Bool-cases (trim_space s =ˢ "")) [
          | inl b ↦ rw b (got-Fine none ctx h)
          | inr b ↦ rw b (elim (Bool-cases (is_nil je)) [
            | inl k ↦ rw k (got-Fine (some c) _ (with_context-Fits (some c) ctx h))
            | inr k ↦ rw k (got-Fine none ctx h)
          ])
        ])
      ]

  as_request_context-Fine :
      (v : Option (Value F)) (ctx : Context F)
      → HoldsContext v
      → Fits ctx
      → Fine Fits (
          as_request_context trim_space query_unescape query_escape decode_context decode_settings
            decode_user v ctx)
  unfolding as_request_context
  as_request_context-Fine none ctx k h = incoming-Fine ctx.incoming ctx h
  as_request_context-Fine (some (request_context c)) ctx k h = (got-Fine c ctx (h))
  as_request_context-Fine (some (shop_settings s)) ctx k h = absurd k
  as_request_context-Fine (some (amazon_user u)) ctx k h = absurd k

  pub request_context-Fine : (ctx : Context F) → Fits ctx → Fine Fits (the_request_context ctx)
  unfolding get_request_context
  request_context-Fine ctx h =
      as_request_context-Fine (value_of request_context_key ctx.values) ctx h.0 h

  x_request_context-Fine :
      (r : Got RequestContext × Context F)
      → Fine Fits r
      → Fine Fits (
          x_request_context trim_space query_unescape query_escape decode_context decode_settings
            decode_user r)
  unfolding x_request_context
  x_request_context-Fine (got none, ctx) h = (got-Fine none ctx h.kind)
  x_request_context-Fine (got (some c), ctx) h = (got-Fine _ ctx h.kind)
  x_request_context-Fine (panicked, ctx) h = absurd (h.fine refl)

  request_id-Fine :
      (r : Got RequestContext × Context F)
      → Fine Fits r
      → Fine Fits (
          request_id trim_space query_unescape query_escape decode_context decode_settings
            decode_user r)
  unfolding request_id
  request_id-Fine (got none, ctx) h = (got-Fine _ ctx h.kind)
  request_id-Fine (got (some c), ctx) h = (got-Fine _ ctx h.kind)
  request_id-Fine (panicked, ctx) h = absurd (h.fine refl)

  user_info-Fine :
      (r : Got XRequestContext × Context F)
      → Fine Fits r
      → Fine Fits (
          user_info trim_space query_unescape query_escape decode_context decode_settings
            decode_user r)
  unfolding user_info
  user_info-Fine (got none, ctx) h = (got-Fine _ ctx h.kind)
  user_info-Fine (got (some c), ctx) h = (got-Fine _ ctx h.kind)
  user_info-Fine (panicked, ctx) h = absurd (h.fine refl)

  decoded_settings-Fine :
      (r : Got XRequestContext × Context F)
      → Fine Fits r
      → Fine Fits (
          decoded_settings trim_space query_unescape query_escape decode_context decode_settings
            decode_user r)
  unfolding decoded_settings is_empty_string
  decoded_settings-Fine (got none, ctx) h = (got-Fine _ ctx h.kind)
  decoded_settings-Fine (panicked, ctx) h = absurd (h.fine refl)
  decoded_settings-Fine (got (some x), ctx) h =
      let (s, e) = decode_settings x.shop_settings in
      elim (Bool-cases (trim_space x.shop_settings =ˢ "")) [
        | inl b ↦ rw b (got-Fine none ctx h.kind)
        | inr b ↦ rw b (elim (Bool-cases (is_nil e)) [
          | inl k ↦ rw k (got-Fine (some s) _ (with_settings-Fits (some s) ctx h.kind))
          | inr k ↦ rw k (got-Fine none ctx h.kind)
        ])
      ]

  pub x-Fine : (ctx : Context F) → Fits ctx → Fine Fits (the_x_request_context ctx)
  unfolding get_x_request_context
  x-Fine ctx h = x_request_context-Fine _ (request_context-Fine ctx h)

  as_shop_settings-Fine :
      (v : Option (Value F)) (ctx : Context F)
      → HoldsSettings v
      → Fits ctx
      → Fine Fits (
          as_shop_settings trim_space query_unescape query_escape decode_context decode_settings
            decode_user v ctx)
  unfolding as_shop_settings
  as_shop_settings-Fine none ctx k h = decoded_settings-Fine _ (x-Fine ctx h)
  as_shop_settings-Fine (some (shop_settings s)) ctx k h = (got-Fine s ctx (h))
  as_shop_settings-Fine (some (request_context c)) ctx k h = absurd k
  as_shop_settings-Fine (some (amazon_user u)) ctx k h = absurd k

  pub shop_settings-Fine : (ctx : Context F) → Fits ctx → Fine Fits (the_shop_settings ctx)
  unfolding get_shop_settings
  shop_settings-Fine ctx h = as_shop_settings-Fine (value_of shop_settings_key ctx.values) ctx h.1 h

  pub resolve_context-Fits :
      (header : String) (ctx : Context F)
      → Fits ctx
      → Fits (
          resolve_context trim_space query_unescape query_escape decode_context decode_settings
            decode_user header ctx)
  unfolding resolve_context is_empty_string with_value
  resolve_context-Fits header ctx h =
      let (s, ue) = query_unescape header in
      let (c, je) = decode_context s in
      elim (Bool-cases (trim_space header =ˢ "")) [
        | inl b ↦ rw b h
        | inr b ↦ rw b (elim (Bool-cases (is_nil ue)) [
          | inr f ↦ rw f h
          | inl t ↦ rw t (elim (Bool-cases (is_nil je)) [
            | inl k ↦ rw k (with_context-Fits (some c) ctx h)
            | inr k ↦ rw k h
          ])
        ])
      ]

  pub id-Fine : (ctx : Context F) → Fits ctx → Fine Fits (the_request_id ctx)
  unfolding get_request_id
  id-Fine ctx h = request_id-Fine _ (request_context-Fine ctx h)

  pub login_user-Fine : (ctx : Context F) → Fits ctx → Fine Fits (the_login_user ctx)
  unfolding get_login_user
  login_user-Fine ctx h = user_info-Fine _ (x-Fine ctx h)
