-- ===== src/Handler/Context/Typed.antt =====
-- Which type assertions of common/security/context.go hold: a context that only
-- RequestContextMiddleware and the getters of `giimallContext` have filled, one that only
-- AmazonUserMiddleware and `amazonContext` have, and one that both have.
use foundation_framework.Base.{String, ◌≢◌, List, []}
use foundation_framework.Err.{Error}
use foundation_framework.Handler.Amazon.{AmazonUser}
use foundation_framework.Handler.Dto.{RequestContext, ShopSettings}
use foundation_framework.Handler.Context.{
  Context, panicked, value_of, called, resolve_context, get_request_context, get_x_request_context,
  get_request_id, get_shop_settings, get_login_user,
}
use foundation_framework.Handler.Context.Fine.{
  Fits, request_context-Fine, x-Fine, id-Fine, login_user-Fine, shop_settings-Fine,
  resolve_context-Fits,
}

module _ {F : Type 0} (trim_space : String → String) (query_unescape : String → String × Error)
    (query_escape : String → String) (decode_context : String → RequestContext × Error)
    (decode_settings : String → ShopSettings F × Error)
    (decode_user : String → AmazonUser × Error) where
  -- The contexts of a service of the first kind: a call arrives with any metadata, the middleware
  -- and the getters go over it in any order, and other services of the kind are called.
  pub data Served : Context F → Type 0 where
    arrives :
        (outgoing incoming : List String)
        → Served (record { values = []; outgoing = outgoing; incoming = incoming })
    resolved :
        {ctx : Context F} (header : String)
        → Served ctx
        → Served (
            resolve_context trim_space query_unescape query_escape decode_context decode_settings
              decode_user header ctx)
    read_context :
        {ctx : Context F}
        → Served ctx
        → Served
            (get_request_context trim_space query_unescape query_escape decode_context
              decode_settings decode_user ctx).1
    read_settings :
        {ctx : Context F}
        → Served ctx
        → Served
            (get_shop_settings trim_space query_unescape query_escape decode_context decode_settings
              decode_user ctx).1
    calls : {ctx : Context F} → Served ctx → Served (called ctx)

  served-Fits : {ctx : Context F} → Served ctx → Fits ctx
  unfolding value_of called
  served-Fits (arrives outgoing incoming) = (tt, tt)
  served-Fits (resolved {ctx} header s) =
      resolve_context-Fits trim_space query_unescape query_escape decode_context decode_settings
        decode_user header ctx (served-Fits s)
  served-Fits (read_context {ctx} s) =
      (request_context-Fine trim_space query_unescape query_escape decode_context decode_settings
        decode_user ctx (served-Fits s)).kind
  served-Fits (read_settings {ctx} s) =
      (shop_settings-Fine trim_space query_unescape query_escape decode_context decode_settings
        decode_user ctx (served-Fits s)).kind
  served-Fits (calls s) = (tt, tt)

  -- In a context of a service that only RequestContextMiddleware and the getters of
  -- `giimallContext` fill, in whatever order, every type assertion of these getters holds: none
  -- panics.
  pub served_never_panics :
      {ctx : Context F}
      → Served ctx
      → ((get_request_context trim_space query_unescape query_escape decode_context decode_settings
            decode_user ctx).0
          ≢ panicked)
        × ((get_x_request_context trim_space query_unescape query_escape decode_context
              decode_settings decode_user ctx).0
            ≢ panicked)
        × ((get_request_id trim_space query_unescape query_escape decode_context decode_settings
              decode_user ctx).0
            ≢ panicked)
        × ((get_shop_settings trim_space query_unescape query_escape decode_context decode_settings
              decode_user ctx).0
            ≢ panicked)
        × ((get_login_user trim_space query_unescape query_escape decode_context decode_settings
              decode_user ctx).0
            ≢ panicked)
  served_never_panics {ctx} s =
      let h = served-Fits s in
      (
        (request_context-Fine trim_space query_unescape query_escape decode_context decode_settings
            decode_user ctx h).fine,
        (x-Fine trim_space query_unescape query_escape decode_context decode_settings decode_user
            ctx h).fine,
        (id-Fine trim_space query_unescape query_escape decode_context decode_settings decode_user
            ctx h).fine,
        (shop_settings-Fine trim_space query_unescape query_escape decode_context decode_settings
            decode_user ctx h).fine,
        (login_user-Fine trim_space query_unescape query_escape decode_context decode_settings
            decode_user ctx h).fine,
      )
