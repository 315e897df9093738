-- ===== src/Shenyu/Registered.antt =====
-- `AddRoutes` of SpringCloudServer and HttpServer in shenyu/shenyu.go. The routes of the embedded
-- server accumulate, and each call goes through all of them. `internal_ip` is netx.InternalIp().
use foundation_framework.Base.{
  String, Bool, true, false, List, [], ◌∷◌, ◌++◌, if◌then◌else◌, ◌=ˢ◌, Option, none, some,
}
use foundation_framework.Err.{Error, is_nil, ◌<>◌}
use foundation_framework.Shenyu.{
  Client, Conf, Request, MetaDataRegister, UriRegister, meta_data_request, register_meta_data,
  get_admin_token, url_register, uri_request, missing,
}
use foundation_framework.Shenyu.Paths.{context_path}

-- The requests that were sent, and whether the process has ended.
pub record Registered : Type 0 where
  pub sent : List Request
  pub exited : Bool

pub record SpringCloudServer : Type 0 where
  pub routes : List String
  pub conf : Conf
  pub token : String
  pub app_name : String

pub record HttpServer : Type 0 where
  pub routes : List String
  pub conf : Conf
  pub token : String
  pub regist_service : Bool
  pub app_name : String
  pub port : String

-- One request, and what the loop does after it: an error ends the process.
unfoldable pub sending : Request → Error → Registered → Registered
sending r e rest =
    if is_nil e
    then record rest { sent = r ∷ rest.sent }
    else record { sent = r ∷ []; exited = true }

abbrev exit_now : Registered
exit_now = record { sent = []; exited = true }

-- What a Spring Cloud server registers for a route.
unfoldable pub spring_meta : String → String → String → MetaDataRegister
spring_meta app path context = record {
  app_name = app;
  context_path = context;
  path = path;
  rpc_type = "springCloud";
  host = "";
  port = "";
  rule_name = path;
}

unfoldable pub http_meta : String → String → MetaDataRegister
http_meta app path = record {
  app_name = app;
  context_path = "";
  path = path;
  rpc_type = "http";
  host = "";
  port = "";
  rule_name = path;
}

unfoldable pub uri_register : HttpServer → UriRegister
uri_register s = record {
  protocol = "http://";
  app_name = s.app_name;
  context_path = "/" <> s.app_name;
  rpc_type = "http";
  host = s.conf.ip;
  port = s.port;
}

unfoldable pub filled : String → Conf → Conf
filled internal_ip conf =
    let ip = if conf.ip =ˢ "" then internal_ip else conf.ip in record conf { ip = ip }

unfoldable pub with_ip : String → HttpServer → HttpServer
with_ip internal_ip s = record s { conf = filled internal_ip s.conf }

-- `NewSpringCloudServer` and `NewHttpServer`: none where the process ends. `port` is the decimal port.
spring_with : Conf → String → String × Error → Option SpringCloudServer
spring_with conf app (token, e) =
    if is_nil e
    then some (record { routes = []; conf = conf; token = token; app_name = app })
    else none

http_with : Conf → String → String → String × Error → Option HttpServer
http_with conf app port (token, e) =
    if is_nil e
    then some (record {
      routes = [];
      conf = conf;
      token = token;
      regist_service = true;
      app_name = app;
      port = port;
    })
    else none

module _ (c : Client) where
  spring_route : SpringCloudServer → String → Option String → Registered → Registered
  unfolding sending
  spring_route s path none rest = exit_now
  spring_route s path (some context) rest =
      let m = spring_meta s.app_name path context in
      sending (meta_data_request c s.token m s.conf) (register_meta_data c s.token m s.conf).1 rest

  unfoldable pub spring_routes : SpringCloudServer → List String → Registered
  unfolding spring_route
  spring_routes s [] = record { sent = []; exited = false }
  spring_routes s (path ∷ paths) = spring_route s path (context_path path) (spring_routes s paths)

  -- `AddRoutes` of a SpringCloudServer: the paths of the routes that it adds.
  unfoldable pub spring_add_routes :
      List String → SpringCloudServer → SpringCloudServer × Registered
  spring_add_routes rs s =
      let s' = record s { routes = s.routes ++ rs } in (s', spring_routes s' s'.routes)

  unfoldable pub http_route : HttpServer → String → Option String → Registered → Registered
  unfolding sending
  http_route s path none rest = exit_now
  http_route s path (some context) rest =
      let m = http_meta s.app_name path in
      let registers =
        sending (meta_data_request c s.token m s.conf) (register_meta_data c s.token m s.conf).1
          rest in
      if ("/" <> s.app_name) =ˢ context then registers else exit_now

  unfoldable pub http_routes : HttpServer → List String → Registered
  unfolding http_route
  http_routes s [] = record { sent = []; exited = false }
  http_routes s (path ∷ paths) = http_route s path (context_path path) (http_routes s paths)

  -- The request is sent only if no parameter is missing.
  unfoldable pub uri_sent : HttpServer → List Request
  uri_sent s =
      let u = uri_register s in if missing c u then [] else uri_request c s.token u s.conf ∷ []

  -- The branch of `registService`, then the routes.
  unfoldable pub first_time : HttpServer → HttpServer × Registered
  unfolding uri_sent
  first_time s =
      let e = (url_register c s.token (uri_register s) s.conf).1 in
      let s' = record s { regist_service = false } in
      let registers = http_routes s' s'.routes in
      if is_nil e
      then (s', record registers { sent = uri_sent s ++ registers.sent })
      else (s, record { sent = uri_sent s; exited = true })

  -- The branch on `registService`.
  unfoldable pub registering : Bool → String → HttpServer → HttpServer × Registered
  registering true internal_ip s = first_time (with_ip internal_ip s)
  registering false internal_ip s = (s, http_routes s s.routes)

  -- `AddRoutes` of an HttpServer.
  unfoldable pub http_add_routes : String → List String → HttpServer → HttpServer × Registered
  http_add_routes internal_ip rs s =
      registering s.regist_service internal_ip (record s { routes = s.routes ++ rs })

  unfoldable pub new_spring_cloud_server : Conf → String → Option SpringCloudServer
  unfolding spring_with
  new_spring_cloud_server conf app = spring_with conf app (get_admin_token c conf)

  unfoldable pub new_http_server : Conf → String → String → Option HttpServer
  unfolding http_with
  new_http_server conf app port = http_with conf app port (get_admin_token c conf)

  -- What an HTTP server sends for a route.
  unfoldable pub route_request : HttpServer → String → Request
  route_request s path = meta_data_request c s.token (http_meta s.app_name path) s.conf
