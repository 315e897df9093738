-- ===== src/Handler/Amazon/LoginUser.antt =====
-- `amazonContext.GetLoginUser` of common/security/context.go, in the handler behind
-- AmazonUserMiddleware and in a service that this handler calls. `query_escape`, `query_unescape` and
-- `decode` (`json.Unmarshal` with its error) are functions of Go's standard library.
use foundation_framework.Base.{
  String, ◌≡◌, ◌≢◌, refl, ap, true, Option, none, some, List, [], ◌∷◌, if◌then◌else◌, ◌=ˢ◌,
  eq_false,
}
use foundation_framework.Err.{Error, nil, is_nil}
use foundation_framework.Handler.Amazon.{
  AmazonUser, Surroundings, resolve, resolve_known, strip_prefix, token_prefix,
}

-- The value under `RequestContextKey`, which may be a nil pointer, and what the incoming gRPC
-- metadata, if there is one, has under it.
pub record CallContext : Type 0 where
  pub value : Option (Option AmazonUser)
  pub incoming : Option (List String)

module _ (query_escape : String → String) (query_unescape : String → String × Error)
    (decode : String → AmazonUser × Error) where
  unmarshalled : AmazonUser × Error → CallContext → Option AmazonUser × CallContext
  unmarshalled (u, e) ctx =
      if is_nil e then (some u, record ctx { value = some (some u) }) else (none, ctx)

  unescaped : String × Error → CallContext → Option AmazonUser × CallContext
  unfolding unmarshalled
  unescaped (s, e) ctx =
      let user = unmarshalled (decode s) ctx in
      if is_nil e then (if s =ˢ "" then (none, ctx) else user) else (none, ctx)

  from_metadata : Option (List String) → CallContext → Option AmazonUser × CallContext
  unfolding unescaped
  from_metadata none ctx = (none, ctx)
  from_metadata (some []) ctx = (none, ctx)
  from_metadata (some (h ∷ _)) ctx = unescaped (query_unescape h) ctx

  from_value : Option (Option AmazonUser) → CallContext → Option AmazonUser × CallContext
  unfolding from_metadata
  from_value (some u) ctx = (u, ctx)
  from_value none ctx = from_metadata ctx.incoming ctx

  -- The user, and the context, which keeps one that it has decoded.
  unfoldable pub get_login_user : CallContext → Option AmazonUser × CallContext
  unfolding from_value
  get_login_user ctx = from_value ctx.value ctx

  -- The context that `Resolve` calls `next` with, and that of a service which `next` calls by gRPC.
  unfoldable pub handler_context : Option (Option AmazonUser × String) → CallContext
  handler_context none = record { value = none; incoming = none }
  handler_context (some (u, text)) = record { value = some u; incoming = none }

  unfoldable pub service_context : Option (Option AmazonUser × String) → CallContext
  service_context none = record { value = none; incoming = none }
  service_context (some (u, text)) = record {
    value = none;
    incoming = some (query_escape text ∷ []);
  }

  from_incoming :
      (u : AmazonUser) (text : String)
      → query_unescape (query_escape text) ≡ (text, nil)
      → decode text ≡ (u, nil)
      → text ≢ ""
      → get_login_user (service_context (some (some u, text)))
        ≡ (some u, record { value = some (some u); incoming = some (query_escape text ∷ []) })
  unfolding get_login_user from_value from_metadata unescaped unmarshalled service_context
  from_incoming u text un de ne = rw (un, de, eq_false text "" ne) refl

  -- What the handler and the called service read, the service also on a second read.
  pub record SeenBy (next : Option (Option AmazonUser × String)) (u : AmazonUser) : Type 0 where
    pub handler : (get_login_user (handler_context next)).0 ≡ some u
    pub service : (get_login_user (service_context next)).0 ≡ some u
    pub again : (get_login_user (get_login_user (service_context next)).1).0 ≡ some u

  passed_seen :
      (u : AmazonUser) (text : String)
      → query_unescape (query_escape text) ≡ (text, nil)
      → decode text ≡ (u, nil)
      → text ≢ ""
      → SeenBy (some (some u, text)) u
  unfolding get_login_user from_value handler_context
  passed_seen u text un de ne =
      let seen = from_incoming u text un de ne in
      record {
        handler = refl;
        service = ap (λ (p : Option AmazonUser × CallContext). p.0) seen;
        again = ap (λ (p : Option AmazonUser × CallContext). (get_login_user p.1).0) seen;
      }

  -- A user that the middleware gets from the user service is the one that the handler reads, and that
  -- a service which the handler calls reads, if what is marshalled and escaped can be read back.
  pub get_login_user-resolve :
      (unmarshal : String → AmazonUser) (marshal : AmazonUser → String) (header token : String)
      (w : Surroundings) (u : AmazonUser)
      → strip_prefix token_prefix header ≡ some token
      → token ≢ ""
      → w.first ≡ ""
      → w.locks ≡ true
      → w.second ≡ ""
      → w.user_info ≡ (some u, nil)
      → query_unescape (query_escape (marshal u)) ≡ (marshal u, nil)
      → decode (marshal u) ≡ (u, nil)
      → marshal u ≢ ""
      → SeenBy (resolve unmarshal marshal true header w).next u
  get_login_user-resolve unmarshal marshal header token w u bearer full f l s i un de ne =
      rw (resolve_known unmarshal marshal header token w bearer full u f l s i)
        (passed_seen u (marshal u) un de ne)
