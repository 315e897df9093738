-- ===== src/Reg/Consul/Plugin.antt =====
-- The plugin of JSON-RPC servers in reg/consul/plugin.go. `C` is the type of request contexts;
-- `convert_meta` is rpcx's `ConvertMeta2Map`.
use foundation_framework.Base.{ℕ, String, Bool, List, if◌then◌else◌, ◌=ˢ◌, Option, none, some}
use foundation_framework.Base.Int.{ℤ, pos}
use foundation_framework.Base.Dict
use foundation_framework.Base.Dict.{Dict}
use foundation_framework.Err.{Error, nil, is_nil, ◌<>◌}
use foundation_framework.Err.Comm
use foundation_framework.Err.Stack.{Frame}
use foundation_framework.Util.ListenOn.{figure_out_listen_on}
use foundation_framework.Reg.Instance.{or_empty}
use foundation_framework.Reg.Consul.{
  Agent, Conf, Registered, positive_ttl, parse_port, parsing_error, registration, register,
}

pub record JsonRpcConf : Type 0 where
  pub listen_on : String
  pub tag : List String
  pub ttl : ℤ

pub record RegisterPlugin : Type 0 where
  pub host : String
  pub port : ℕ
  pub service_name_prefix : String
  pub json_rpc_conf : JsonRpcConf

plugin_at : String → JsonRpcConf → (String × String) × Error → Option RegisterPlugin × Error
plugin_at key c ((host, ports), e) =
    if is_nil e
    then (
      some (record {
        host = host;
        port = parse_port ports;
        service_name_prefix = key <> ":";
        json_rpc_conf = c;
      }),
      nil,
    )
    else (none, parsing_error e)

-- `NewRegisterPlugin`; `ip` is what GetInternalIp returns.
unfoldable pub new_register_plugin :
    List Frame
    → (String → (String × String) × Error)
    → String
    → String
    → JsonRpcConf
    → Option RegisterPlugin × Error
unfolding plugin_at
new_register_plugin stack split_host_port ip key c =
    let at = plugin_at key c (split_host_port (figure_out_listen_on ip c.listen_on)) in
    if c.listen_on =ˢ "" then (none, Comm.new stack "jsonrpc port is not set") else at

-- What a registration by the plugin is made of.
unfoldable pub service_conf : String → Dict String → JsonRpcConf → Conf
service_conf name meta c = record { key = name; tag = c.tag; meta = meta; ttl = c.ttl }

-- `Register`: the plugin keeps the TTL that it has set.
unfoldable pub plugin_register :
    (a : Agent)
    → (String → Dict String)
    → RegisterPlugin
    → String
    → String
    → Agent.State a
    → RegisterPlugin × Registered a
unfolding service_conf
plugin_register a convert_meta p name metadata s =
    let c : JsonRpcConf = record p.json_rpc_conf { ttl = pos (positive_ttl p.json_rpc_conf.ttl) } in
    (
      record p { json_rpc_conf = c },
      register a (registration (service_conf name (convert_meta metadata) c) p.host p.port) s,
    )

-- `RegisterFunction`
unfoldable pub register_function :
    (a : Agent)
    → (String → Dict String)
    → RegisterPlugin
    → String
    → String
    → String
    → Agent.State a
    → RegisterPlugin × Registered a
register_function a convert_meta p name fname metadata s =
    plugin_register a convert_meta p name metadata s

-- `PostReadRequest`: the request context of the call afterwards, and the error. `shared` is whether
-- the context is rpcx's, and `metadata` is that of the message.
module _ {C : Type 0} (stack : List Frame) (trim_space : String → String)
    (unmarshal : String → C × Error) where
  decoded : Option C → C × Error → Option C × Error
  decoded before (c, e) =
      if is_nil e then (some c, nil) else (before, Comm.wrap_new stack "jsonRpc上下文Json解析失败：%+v" e)

  unfoldable pub post_read_request : Bool → Dict String → Option C → Option C × Error
  unfolding decoded
  post_read_request shared metadata before =
      let s = or_empty (Dict.get metadata "x-request-context") in
      let after = decoded before (unmarshal s) in
      if shared then (if trim_space s =ˢ "" then (before, nil) else after) else (before, nil)
