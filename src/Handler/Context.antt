-- ===== src/Handler/Context.antt =====
-- Contexts as Go keeps them: values of any type under a key, and gRPC metadata. The middlewares of
-- handler/handler.go put values under `RequestContextKey`, and the getters of
-- common/security/context.go take them out by type assertions, which panic on another type.
pub mod Fine
pub mod Typed
pub mod Mixed
use foundation_framework.Base.{
  String, ◌≡◌, Bool, true, false, Option, none, some, List, [], ◌∷◌, if◌then◌else◌, ◌=ˢ◌,
}
use foundation_framework.Err.{Error, is_nil}
use foundation_framework.Handler.Amazon.{AmazonUser}
use foundation_framework.Handler.Dto.{RequestContext, XRequestContext, UserInfo, ShopSettings}

abbrev pub request_context_key : String
request_context_key = "x-request-context"

abbrev pub shop_settings_key : String
shop_settings_key = "ShopSettings"

-- A value of a context with its dynamic type, a pointer, which is nil for `none`.
pub data Value (F : Type 0) : Type 0 where
  request_context : Option RequestContext → Value F
  shop_settings : Option (ShopSettings F) → Value F
  amazon_user : Option AmazonUser → Value F

-- `values` holds what `context.WithValue` has added, the last first; `outgoing` and `incoming` are
-- the gRPC metadata under `RequestContextKey`.
pub record Context (F : Type 0) : Type 0 where
  pub values : List (String × Value F)
  pub outgoing : List String
  pub incoming : List String

-- How a getter ends: a pointer, or the panic of a type assertion.
pub data Got (A : Type 0) : Type 0 where
  got : Option A → Got A
  panicked : Got A

module _ {F : Type 0} where
  -- `context.Value`
  unfoldable pub value_of : String → List (String × Value F) → Option (Value F)
  value_of key [] = none
  value_of key ((j, v) ∷ vs) = if j =ˢ key then some v else value_of key vs

  -- `context.WithValue`
  unfoldable pub with_value : String → Value F → Context F → Context F
  with_value key v ctx = record ctx { values = (key, v) ∷ ctx.values }

  -- The context of the service that a gRPC call reaches.
  unfoldable pub called : Context F → Context F
  called ctx = record { values = []; outgoing = []; incoming = ctx.outgoing }

module _ {F : Type 0} (trim_space : String → String) (query_unescape : String → String × Error)
    (query_escape : String → String) (decode_context : String → RequestContext × Error)
    (decode_settings : String → ShopSettings F × Error)
    (decode_user : String → AmazonUser × Error) where
  is_empty_string : String → Bool
  is_empty_string s = trim_space s =ˢ ""

  -- The context that `RequestContextMiddleware.Resolve` calls `next` with.
  unfoldable pub resolve_context : String → Context F → Context F
  unfolding is_empty_string with_value
  resolve_context header ctx =
      let (s, ue) = query_unescape header in
      let (c, je) = decode_context s in
      if is_empty_string header
      then ctx
      else (if is_nil ue
          then (if is_nil je
              then record (with_value request_context_key (request_context (some c)) ctx) {
                outgoing = header ∷ [];
              }
              else ctx)
          else ctx)

  -- The context that `AmazonUserMiddleware.Resolve` calls `next` with, for the user and the JSON.
  unfoldable pub resolve_user : Option AmazonUser → String → Context F → Context F
  unfolding with_value
  resolve_user u json ctx = record (with_value request_context_key (amazon_user u) ctx) {
    outgoing = query_escape json ∷ [];
  }

  -- The metadata's part of `giimallContext.GetRequestContext`.
  incoming_context : List String → Context F → Got RequestContext × Context F
  unfolding is_empty_string with_value
  incoming_context [] ctx = (got none, ctx)
  incoming_context (h ∷ _) ctx =
      let (s, ue) = query_unescape h in
      let (c, je) = decode_context s in
      if is_nil ue
      then (if is_empty_string s
          then (got none, ctx)
          else (if is_nil je
              then (got (some c), with_value request_context_key (request_context (some c)) ctx)
              else (got none, ctx)))
      else (got none, ctx)

  -- `requestContext.(*dto.RequestContext)`
  as_request_context : Option (Value F) → Context F → Got RequestContext × Context F
  unfolding incoming_context
  as_request_context none ctx = incoming_context ctx.incoming ctx
  as_request_context (some (request_context c)) ctx = (got c, ctx)
  as_request_context (some (shop_settings s)) ctx = (panicked, ctx)
  as_request_context (some (amazon_user u)) ctx = (panicked, ctx)

  unfoldable pub get_request_context : Context F → Got RequestContext × Context F
  unfolding as_request_context value_of
  get_request_context ctx = as_request_context (value_of request_context_key ctx.values) ctx

  x_request_context : Got RequestContext × Context F → Got XRequestContext × Context F
  x_request_context (got none, ctx) = (got none, ctx)
  x_request_context (got (some c), ctx) = (got (some c.x_request_context), ctx)
  x_request_context (panicked, ctx) = (panicked, ctx)

  unfoldable pub get_x_request_context : Context F → Got XRequestContext × Context F
  unfolding x_request_context get_request_context
  get_x_request_context ctx = x_request_context (get_request_context ctx)

  -- A nil pointer has no id: the empty string.
  request_id : Got RequestContext × Context F → Got String × Context F
  request_id (got none, ctx) = (got (some ""), ctx)
  request_id (got (some c), ctx) = (got (some c.x_request_id), ctx)
  request_id (panicked, ctx) = (panicked, ctx)

  unfoldable pub get_request_id : Context F → Got String × Context F
  unfolding request_id get_request_context
  get_request_id ctx = request_id (get_request_context ctx)

  -- The rest of `GetShopSettings` after `GetXRequestContext`.
  decoded_settings : Got XRequestContext × Context F → Got (ShopSettings F) × Context F
  unfolding is_empty_string with_value
  decoded_settings (got none, ctx) = (got none, ctx)
  decoded_settings (panicked, ctx) = (panicked, ctx)
  decoded_settings (got (some x), ctx) =
      let (s, e) = decode_settings x.shop_settings in
      if is_empty_string x.shop_settings
      then (got none, ctx)
      else (if is_nil e
          then (got (some s), with_value shop_settings_key (shop_settings (some s)) ctx)
          else (got none, ctx))

  as_shop_settings : Option (Value F) → Context F → Got (ShopSettings F) × Context F
  unfolding decoded_settings get_x_request_context
  as_shop_settings none ctx = decoded_settings (get_x_request_context ctx)
  as_shop_settings (some (shop_settings s)) ctx = (got s, ctx)
  as_shop_settings (some (request_context c)) ctx = (panicked, ctx)
  as_shop_settings (some (amazon_user u)) ctx = (panicked, ctx)

  unfoldable pub get_shop_settings : Context F → Got (ShopSettings F) × Context F
  unfolding as_shop_settings value_of
  get_shop_settings ctx = as_shop_settings (value_of shop_settings_key ctx.values) ctx

  user_info : Got XRequestContext × Context F → Got UserInfo × Context F
  user_info (got none, ctx) = (got none, ctx)
  user_info (got (some x), ctx) = (got x.user_info, ctx)
  user_info (panicked, ctx) = (panicked, ctx)

  -- `giimallContext.GetLoginUser`
  unfoldable pub get_login_user : Context F → Got UserInfo × Context F
  unfolding user_info get_x_request_context
  get_login_user ctx = user_info (get_x_request_context ctx)

  incoming_user : List String → Context F → Got AmazonUser × Context F
  unfolding with_value
  incoming_user [] ctx = (got none, ctx)
  incoming_user (h ∷ _) ctx =
      let (s, ue) = query_unescape h in
      let (u, je) = decode_user s in
      if is_nil ue
      then (if s =ˢ ""
          then (got none, ctx)
          else (if is_nil je
              then (got (some u), with_value request_context_key (amazon_user (some u)) ctx)
              else (got none, ctx)))
      else (got none, ctx)

  as_amazon_user : Option (Value F) → Context F → Got AmazonUser × Context F
  unfolding incoming_user
  as_amazon_user none ctx = incoming_user ctx.incoming ctx
  as_amazon_user (some (amazon_user u)) ctx = (got u, ctx)
  as_amazon_user (some (request_context c)) ctx = (panicked, ctx)
  as_amazon_user (some (shop_settings s)) ctx = (panicked, ctx)

  -- `amazonContext.GetLoginUser`
  unfoldable pub get_amazon_user : Context F → Got AmazonUser × Context F
  unfolding as_amazon_user value_of
  get_amazon_user ctx = as_amazon_user (value_of request_context_key ctx.values) ctx
