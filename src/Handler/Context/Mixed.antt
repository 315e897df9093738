-- ===== src/Handler/Context/Mixed.antt =====
-- Both middlewares of handler/handler.go on one request: they use the same key, `RequestContextKey`,
-- for values of different types.
use foundation_framework.Base.{String, ◌≡◌, ◌≢◌, refl, Option, some, eq_false}
use foundation_framework.Err.{Error, nil}
use foundation_framework.Handler.Amazon.{AmazonUser}
use foundation_framework.Handler.Dto.{RequestContext, ShopSettings}
use foundation_framework.Handler.Context.{
  Context, got, panicked, value_of, with_value, called, is_empty_string, resolve_context,
  resolve_user, as_request_context, get_request_context, as_amazon_user, incoming_user,
  get_amazon_user,
}

module _ {F : Type 0} (trim_space : String → String) (query_unescape : String → String × Error)
    (query_escape : String → String) (decode_context : String → RequestContext × Error)
    (decode_settings : String → ShopSettings F × Error)
    (decode_user : String → AmazonUser × Error) where
  -- The handler behind both middlewares, AmazonUserMiddleware the inner one: the user is read,
  -- and `GetRequestContext` panics, also where the request has no request context. With
  -- RequestContextMiddleware the inner one, and a request context that decodes, the context is read
  -- and `GetLoginUser` panics.
  middlewares_clash :
      (ctx : Context F) (u : Option AmazonUser) (json header s : String) (c : RequestContext)
      → trim_space header ≢ ""
      → query_unescape header ≡ (s, nil)
      → decode_context s ≡ (c, nil)
      → ((get_amazon_user trim_space query_unescape query_escape decode_context decode_settings
            decode_user
            (resolve_user trim_space query_unescape query_escape decode_context decode_settings
              decode_user u json ctx)).0
          ≡ got u)
        × ((get_request_context trim_space query_unescape query_escape decode_context
              decode_settings decode_user
              (resolve_user trim_space query_unescape query_escape decode_context decode_settings
                decode_user u json ctx)).0
            ≡ panicked)
        × ((get_request_context trim_space query_unescape query_escape decode_context
              decode_settings decode_user
              (resolve_context trim_space query_unescape query_escape decode_context decode_settings
                decode_user header ctx)).0
            ≡ got (some c))
        × ((get_amazon_user trim_space query_unescape query_escape decode_context decode_settings
              decode_user
              (resolve_context trim_space query_unescape query_escape decode_context decode_settings
                decode_user header ctx)).0
            ≡ panicked)
  unfolding get_amazon_user as_amazon_user get_request_context as_request_context resolve_user
      resolve_context with_value value_of is_empty_string
  middlewares_clash ctx u json header s c full un de =
      rw (eq_false (trim_space header) "" full, un) (rw de (refl, refl, refl, refl))

  -- The type of a value does not go over a call: the called service reads its own kind.
  called_reads_user :
      (ctx : Context F) (json : String) (u : Option AmazonUser) (w : AmazonUser)
      → query_unescape (query_escape json) ≡ (json, nil)
      → decode_user json ≡ (w, nil)
      → json ≢ ""
      → (get_amazon_user trim_space query_unescape query_escape decode_context decode_settings
          decode_user
          (called (
            resolve_user trim_space query_unescape query_escape decode_context decode_settings
              decode_user u json ctx))).0
        ≡ got (some w)
  unfolding get_amazon_user as_amazon_user incoming_user resolve_user called with_value value_of
  called_reads_user ctx json u w un de ne = rw (un, de, eq_false json "" ne) refl
