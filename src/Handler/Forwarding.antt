-- ===== src/Handler/Forwarding.antt =====
-- The request context that services pass on: RequestContextMiddleware of handler/handler.go and
-- GetRequestContext of common/security/context.go. `C` is the type of contexts; `trim_space`,
-- `query_unescape` and `unmarshal` are the functions of Go's standard library.
use foundation_framework.Base.{
  String, ◌≡◌, ◌≢◌, refl, Bool, Option, none, some, List, [], ◌∷◌, if◌then◌else◌, ◌=ˢ◌, eq_false,
}
use foundation_framework.Err.{Error, nil, is_nil}

module _ {C : Type 0} (trim_space : String → String) (query_unescape : String → String × Error)
    (unmarshal : String → C × Error) where
  unfoldable pub is_empty_string : String → Bool
  is_empty_string s = trim_space s =ˢ ""

  -- The context that a handler or a service runs in: the value under `RequestContextKey`, and what
  -- the outgoing and the incoming gRPC metadata have under it.
  pub record Context : Type 0 where
    pub request_context : Option C
    pub outgoing : List String
    pub incoming : List String

  -- The context that `Resolve` calls `next` with, from the header `x-request-context`.
  unfoldable pub resolve : String → Context → Context
  unfolding is_empty_string
  resolve header ctx =
      let (s, ue) = query_unescape header in
      let (c, je) = unmarshal s in
      if is_empty_string header
      then ctx
      else (if is_nil ue
          then (if is_nil je
              then record ctx { request_context = some c; outgoing = header ∷ [] }
              else ctx)
          else ctx)

  -- The end of `GetRequestContext`, for the metadata of a call: the result, and the context, which
  -- keeps it for the next call.
  incoming_context : List String → Context → Option C × Context
  incoming_context [] ctx = (none, ctx)
  incoming_context (h ∷ _) ctx =
      let (s, ue) = query_unescape h in
      let (c, je) = unmarshal s in
      if is_nil ue
      then (if is_empty_string s
          then (none, ctx)
          else (if is_nil je
              then (some c, record ctx { request_context = some c })
              else (none, ctx)))
      else (none, ctx)

  found_context : Option C → Context → Option C × Context
  found_context (some c) ctx = (some c, ctx)
  found_context none ctx = incoming_context ctx.incoming ctx

  unfoldable pub get_request_context : Context → Option C × Context
  unfolding found_context incoming_context is_empty_string
  get_request_context ctx = found_context ctx.request_context ctx

  -- The context of the service that a gRPC call from `ctx` reaches.
  unfoldable pub called : Context → Context
  called ctx = record { request_context = none; outgoing = []; incoming = ctx.outgoing }

  -- A request context in a header that decodes is what the handler behind the middleware reads, and
  -- what a service that this handler calls reads; reading it twice gives the same.
  pub get_request_context-resolve :
      (header s : String) (c : C) (ctx : Context)
      → trim_space header ≢ ""
      → query_unescape header ≡ (s, nil)
      → trim_space s ≢ ""
      → unmarshal s ≡ (c, nil)
      → ((get_request_context (resolve header ctx)).0 ≡ some c)
        × ((get_request_context (called (resolve header ctx))).0 ≡ some c)
        × ((get_request_context (get_request_context (called (resolve header ctx))).1).0 ≡ some c)
  unfolding resolve get_request_context found_context incoming_context called is_empty_string
  get_request_context-resolve header s c ctx full u full' j =
      let blank = eq_false (trim_space s) "" full' in
      rw (eq_false (trim_space header) "" full, u)
        (rw j (refl, rw (u, blank, j) refl, rw (u, blank, j) refl))
