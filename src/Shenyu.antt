-- ===== src/Shenyu.antt =====
-- The registration of routes at the ShenYu gateway, of shenyu/shenyu.go. The client library of ShenYu
-- is the parameter `c`: its constants, and the results of its calls on a request.
pub mod Paths
pub mod Registered
pub mod Once
use Prim.Native.Char.{code}
use Prim.Native.String.{[], ◌∷◌}
use foundation_framework.Base.{
  ℕ, zero, suc, String, Bool, true, false, List, if◌then◌else◌, ◌==◌, ◌=ˢ◌, ◌||◌, Option, none,
  some, ◌++◌, ◌≡◌,
}
use foundation_framework.Base.Dict
use foundation_framework.Base.Dict.{Dict}
use foundation_framework.Err.{Error, nil, is_nil, ◌<>◌}

pub record Conf : Type 0 where
  pub user_name : String
  pub password : String
  pub admin_url : String
  pub ip : String

-- `model.ShenYuCommonRequest`, without its timeout, which is a constant.
pub record Request : Type 0 where
  pub url : String
  pub header : Dict (List String)
  pub params : Dict String

-- The library: header names and values, parameter names, paths, and its calls.
pub record Client : Type 0 where
  pub connection : String
  pub connection_value : String
  pub content_type : String
  pub content_type_value : String
  pub token_header_key : String
  pub admin_username : String
  pub admin_password : String
  pub token_path : String
  pub base_path : String
  pub metadata_path : String
  pub uri_path : String
  pub rpctype_http : String
  pub miss_param : Error
  pub get_admin_user : Request → String × Error
  pub register_meta_data : Request → Bool × Error
  pub do_url_register : Request → Bool × Error

-- `model.MetaDataRegister` and `model.URIRegister`, the fields that are sent.
pub record MetaDataRegister : Type 0 where
  pub app_name : String
  pub context_path : String
  pub path : String
  pub rpc_type : String
  pub host : String
  pub port : String
  pub rule_name : String

pub record UriRegister : Type 0 where
  pub protocol : String
  pub app_name : String
  pub context_path : String
  pub rpc_type : String
  pub host : String
  pub port : String

one : String → List String
one s = List.◌∷◌ s List.[]

abbrev no_params : Dict String
no_params = List.[]

-- A result with the zero value where there is an error.
unfoldable pub or_false : Bool × Error → Bool × Error
or_false (b, e) = if is_nil e then (b, nil) else (false, e)

or_no_token : String × Error → String × Error
or_no_token (t, e) = if is_nil e then (t, nil) else ("", e)

module _ (c : Client) where
  base_headers : Dict (List String)
  unfolding one
  base_headers =
      Dict.put (Dict.put List.[] c.connection (one c.connection_value)) c.content_type
        (one c.content_type_value)

  unfoldable pub adapter_headers : String → Dict (List String)
  unfolding base_headers one
  adapter_headers token = Dict.put base_headers c.token_header_key (one token)

  unfoldable pub token_request : Conf → Request
  unfolding base_headers
  token_request conf = record {
    url = conf.admin_url <> c.token_path;
    header = base_headers;
    params =
        Dict.put (Dict.put no_params c.admin_username conf.user_name) c.admin_password
          conf.password;
  }

  unfoldable pub get_admin_token : Conf → String × Error
  unfolding or_no_token
  get_admin_token conf = or_no_token (c.get_admin_user (token_request conf))

  unfoldable pub meta_data_params : MetaDataRegister → Dict String
  meta_data_params m =
      let p1 = Dict.put no_params "appName" m.app_name in
      let p2 = Dict.put p1 "path" m.path in
      let p3 = Dict.put p2 "contextPath" m.context_path in
      let p4 = Dict.put p3 "host" m.host in
      let p5 = Dict.put p4 "port" m.port in
      let p6 = Dict.put p5 "rpcType" (if m.rpc_type =ˢ "" then c.rpctype_http else m.rpc_type) in
      Dict.put p6 "ruleName" (if m.rule_name =ˢ "" then m.path else m.rule_name)

  unfoldable pub meta_data_request : String → MetaDataRegister → Conf → Request
  meta_data_request token m conf = record {
    url = conf.admin_url <> c.base_path <> c.metadata_path;
    header = adapter_headers token;
    params = meta_data_params m;
  }

  -- `RegisterMetaData`
  unfoldable pub register_meta_data : String → MetaDataRegister → Conf → Bool × Error
  unfolding or_false
  register_meta_data token m conf = or_false (c.register_meta_data (meta_data_request token m conf))

  unfoldable pub uri_request : String → UriRegister → Conf → Request
  uri_request token u conf =
      let p1 = Dict.put no_params "protocol" u.protocol in
      let p2 = Dict.put p1 "appName" u.app_name in
      let p3 = Dict.put p2 "contextPath" u.context_path in
      let p4 = Dict.put p3 "host" u.host in
      let p5 = Dict.put p4 "port" u.port in
      record {
        url = conf.admin_url <> c.base_path <> c.uri_path;
        header = adapter_headers token;
        params = Dict.put p5 "rpcType" u.rpc_type;
      }

  unfoldable pub missing : UriRegister → Bool
  missing u = u.app_name =ˢ "" || (u.rpc_type =ˢ "" || (u.host =ˢ "" || u.port =ˢ ""))

  -- `UrlRegister`: nothing is sent where a parameter is missing.
  unfoldable pub url_register : String → UriRegister → Conf → Bool × Error
  unfolding missing or_false
  url_register token u conf =
      if missing u
      then (false, c.miss_param)
      else or_false (c.do_url_register (uri_request token u conf))
