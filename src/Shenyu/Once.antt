-- ===== src/Shenyu/Once.antt =====
-- What an HttpServer of shenyu/shenyu.go registers over several calls of `AddRoutes`.
use foundation_framework.Base.{
  String, Bool, true, false, List, [], ◌∷◌, ◌++◌, map, some, ◌≡◌, refl, ap, ◌∙◌, All, All-append,
  eq_refl,
}
use foundation_framework.Err.{Error, nil, ◌<>◌}
use foundation_framework.Shenyu.{
  Client, Conf, Request, UriRegister, meta_data_request, register_meta_data, url_register,
  uri_request, or_false, missing,
}
use foundation_framework.Shenyu.Paths.{context_path}
use foundation_framework.Shenyu.Registered.{
  Registered, HttpServer, sending, http_meta, http_route, http_routes, uri_register, with_ip,
  uri_sent, first_time, http_add_routes, registering,
}

-- A route is below the application.
unfoldable pub Below : String → String → Type 0
Below app path = context_path path ≡ some ("/" <> app)

or_false-nil : (r : Bool × Error) → r.1 ≡ nil → (or_false r).1 ≡ nil
unfolding or_false
or_false-nil (b, e) h = rw h refl

unfoldable pub and_sent : Request → Registered → Registered
and_sent r rest = record rest { sent = r ∷ rest.sent }

sending-nil :
    (r : Request) (e : Error) (rest : Registered) → e ≡ nil → sending r e rest ≡ and_sent r rest
unfolding sending and_sent
sending-nil r e rest h = rw h refl

module _ (c : Client) where
  -- What an HTTP server sends for a route.
  unfoldable pub route_request : HttpServer → String → Request
  route_request s path = meta_data_request c s.token (http_meta s.app_name path) s.conf

  -- Requests of the routes, and no exit.
  unfoldable pub all_of : HttpServer → List String → Registered
  all_of s paths = record { sent = map (route_request s) paths; exited = false }

-- A server that has registered itself.
off : HttpServer → HttpServer
off s = record s { regist_service = false }

module _ (c : Client) (no_error : (r : Request) → (c.register_meta_data r).1 ≡ nil) where
  http_route-below :
      (s : HttpServer) (path : String) (rest : Registered)
      → http_route c s path (some ("/" <> s.app_name)) rest ≡ and_sent (route_request c s path) rest
  unfolding http_route route_request register_meta_data
  http_route-below s path rest =
      rw (eq_refl ("/" <> s.app_name)) (sending-nil _ _ rest (or_false-nil _ (no_error _)))

  http_routes-all :
      (s : HttpServer) (paths : List String)
      → All (Below s.app_name) paths
      → http_routes c s paths ≡ all_of c s paths
  unfolding http_routes Below all_of and_sent
  http_routes-all s [] all = refl
  http_routes-all s (path ∷ paths) all =
      rw (all.0, http_routes-all s paths all.1) (http_route-below s path _)

  url_register-nil :
      (t : String) (u : UriRegister) (conf : Conf)
      → (c.do_url_register (uri_request c t u conf)).1 ≡ nil
      → missing c u ≡ false
      → (url_register c t u conf).1 ≡ nil
  unfolding url_register
  url_register-nil t u conf h hm = rw hm (or_false-nil _ h)

  uri_sent-one :
      (s : HttpServer)
      → missing c (uri_register s) ≡ false
      → uri_sent c s ≡ uri_request c s.token (uri_register s) s.conf ∷ []
  unfolding uri_sent
  uri_sent-one s hm = rw hm refl

  first_registers :
      (s : HttpServer)
      → (c.do_url_register (uri_request c s.token (uri_register s) s.conf)).1 ≡ nil
      → missing c (uri_register s) ≡ false
      → All (Below s.app_name) s.routes
      → first_time c s
        ≡ (off s, and_sent (uri_request c s.token (uri_register s) s.conf) (all_of c s s.routes))
  unfolding first_time off and_sent all_of route_request
  first_registers s h hm all =
      rw
        (
          url_register-nil s.token (uri_register s) s.conf h hm,
          uri_sent-one s hm,
          http_routes-all (off s) s.routes all,
        )
        refl

  later_call :
      (internal_ip : String) (rs : List String) (s : HttpServer)
      → s.regist_service ≡ false
      → All (Below s.app_name) (s.routes ++ rs)
      → http_add_routes c internal_ip rs s
        ≡ (record s { routes = s.routes ++ rs }, all_of c s (s.routes ++ rs))
  unfolding http_add_routes registering all_of route_request
  later_call internal_ip rs s hr all =
      ap (λ (b : Bool). registering c b internal_ip t) hr
      ∙ ap (λ (r : Registered). (t, r)) (http_routes-all t (s.routes ++ rs) all)
    where
      t : HttpServer
      t = record s { routes = s.routes ++ rs }

-- The server that the first call of AddRoutes registers.
unfoldable pub begun : String → List String → HttpServer → HttpServer
begun internal_ip rs s = with_ip internal_ip (record s { routes = s.routes ++ rs })

module _ (c : Client) (no_error : (r : Request) → (c.register_meta_data r).1 ≡ nil) where
  first_call :
      (internal_ip : String) (rs : List String) (s : HttpServer)
      → s.regist_service ≡ true
      → (let t = begun internal_ip rs s in
          (c.do_url_register (uri_request c t.token (uri_register t) t.conf)).1 ≡ nil
          → missing c (uri_register t) ≡ false
          → All (Below s.app_name) (s.routes ++ rs)
          → http_add_routes c internal_ip rs s ≡ (
            off t,
            and_sent (uri_request c t.token (uri_register t) t.conf) (all_of c t t.routes),
          ))
  unfolding http_add_routes begun registering with_ip
  first_call internal_ip rs s hr h hm all =
      ap (λ (b : Bool). registering c b internal_ip (record s { routes = s.routes ++ rs })) hr
      ∙ first_registers c no_error (begun internal_ip rs s) h hm all

-- What two calls of AddRoutes send, with the server `t` of the first call.
unfoldable pub Twice :
    Client → String → List String → List String → HttpServer → HttpServer → Type 0
Twice c internal_ip rs ss s t =
    (http_add_routes c internal_ip rs s).1
      ≡ and_sent (uri_request c t.token (uri_register t) t.conf) (all_of c t (s.routes ++ rs))
    × ((http_add_routes c internal_ip ss (http_add_routes c internal_ip rs s).0).1
        ≡ all_of c t ((s.routes ++ rs) ++ ss))

-- For a server that is not registered yet, where no call of the library fails, no parameter is missing
-- and every route is below the application, two calls send one registration of the server, the routes of the first call, and the routes of both calls.
pub registers_once :
    (c : Client)
    → ((r : Request) → (c.register_meta_data r).1 ≡ nil)
    → ((r : Request) → (c.do_url_register r).1 ≡ nil)
    → (internal_ip : String) (rs ss : List String) (s : HttpServer) → s.regist_service ≡ true
    → missing c (uri_register (begun internal_ip rs s)) ≡ false
    → All (Below s.app_name) (s.routes ++ rs)
    → All (Below s.app_name) ss
    → Twice c internal_ip rs ss s (begun internal_ip rs s)
unfolding Twice begun with_ip off all_of route_request
registers_once c no_error url_ok internal_ip rs ss s hr hm all alls = (
  ap (λ (p : HttpServer × Registered). p.1) first,
  ap (λ (p : HttpServer × Registered). (http_add_routes c internal_ip ss p.0).1) first
      ∙ ap (λ (p : HttpServer × Registered). p.1)
          (later_call c no_error internal_ip ss (off t) refl
            (All-append (Below s.app_name) t.routes ss all alls)),
)
  where
    t : HttpServer
    t = begun internal_ip rs s

    first :
        http_add_routes c internal_ip rs s
        ≡ (off t, and_sent (uri_request c t.token (uri_register t) t.conf) (all_of c t t.routes))
    first = first_call c no_error internal_ip rs s hr (url_ok _) hm all
