-- ===== src/JsonRpc/Call.antt =====
-- `Client.Call` of jsonrpc/jsonrpc.go. `C`, `A`, `R` and `Reply` are the types of request contexts,
-- arguments, JSON results and replies; marshalling, the HTTP post and the reading of a body are
-- functions of Go's standard library.
pub mod Answered
use foundation_framework.Base.{
  ℕ, String, ◌≡◌, refl, ap, ◌∙◌, sym, true, false, Bool, Option, none, some, List, [], ◌∷◌, ◌==◌,
  if◌then◌else◌, Bool-cases, inl, inr,
}
use foundation_framework.Base.Int.{ℤ, pos}
use foundation_framework.Base.Decimal.{format_int}
use foundation_framework.Base.Dict
use foundation_framework.Base.Dict.{Dict}
use foundation_framework.Err.{Error, nil, is_nil, response, error_text, ◌<>◌}
use foundation_framework.Err.Comm
use foundation_framework.Err.Stack.{Frame}
use foundation_framework.JsonRpc.{RoundRobinSelector, selector}

-- `Error` of the response, with its `ErrorData`.
pub record ErrorData : Type 0 where
  pub class : String
  pub code : ℤ
  pub message : String

pub record RpcError : Type 0 where
  pub code : ℤ
  pub message : String
  pub error_data : ErrorData

pub record JsonRpcBody (A C : Type 0) : Type 0 where
  pub jsonrpc : String
  pub method : String
  pub params : A
  pub id : String
  pub request_context : Option C

pub record JsonRpcResponse (R : Type 0) : Type 0 where
  pub result : R
  pub error : Option RpcError

-- The status code, and the body or the error of reading it.
pub record Response : Type 0 where
  pub status_code : ℕ
  pub body : String × Error

-- A selector with the services that its discovery knows at the call.
pub record Selector : Type 0 where
  pub round_robin : RoundRobinSelector
  pub services : List String

-- `Client`: the map from service names to selectors.
pub record Client : Type 0 where
  pub discovery_map : Dict Selector

-- What a call returns, and where it has sent its request, if it got that far.
pub record Called (Reply : Type 0) : Type 0 where
  pub error : Error
  pub reply : Reply
  pub posted : Option (String × String)

pub record Encoding (A C R Reply : Type 0) : Type 0 where
  pub marshal_body : JsonRpcBody A C → String × Error
  pub unmarshal_response : String → JsonRpcResponse R × Error
  pub marshal_result : R → String × Error
  pub unmarshal_reply : String → Reply → Reply × Error

-- `time.Now().UnixMilli()` is `now`.
unfoldable pub request_body : {A C : Type 0} → ℤ → String → A → Option C → JsonRpcBody A C
request_body now method args context = record {
  jsonrpc = "2.0";
  method = method;
  params = args;
  id = format_int now;
  request_context = context;
}

module _ {A C R Reply : Type 0} (encoding : Encoding A C R Reply) (stack : List Frame)
    (post : String → String → Response × Error) where
  open encoding use {marshal_body, unmarshal_response, marshal_result, unmarshal_reply}

  unfoldable pub failed : Error → Reply → String × String → Called Reply
  failed e reply sent = record { error = e; reply = reply; posted = some sent }

  -- The end of Call, which decodes the result into `reply`.
  unfoldable pub with_result : String × Error → Reply → String × String → Called Reply
  unfolding failed
  with_result (text, e) reply sent =
      let (decoded, de) = unmarshal_reply text reply in
      if is_nil e then failed de decoded sent else failed e reply sent

  unfoldable pub with_response :
      JsonRpcResponse R → Option RpcError → Reply → String × String → Called Reply
  unfolding with_result failed
  with_response r (some e) reply sent =
      failed (response e.error_data.code e.message e.error_data.message) reply sent
  with_response r none reply sent = with_result (marshal_result r.result) reply sent

  unfoldable pub with_body : String × Error → Reply → String × String → Called Reply
  unfolding with_response failed
  with_body (body, e) reply sent =
      let (r, re) = unmarshal_response body in
      let after = with_response r r.error reply sent in
      if is_nil e then (if is_nil re then after else failed re reply sent) else failed e reply sent

  unfoldable pub with_answer : Response × Error → Reply → String × String → Called Reply
  unfolding with_body failed
  with_answer (answer, e) reply sent =
      let after = with_body answer.body reply sent in
      if is_nil e
      then (if answer.status_code == 200 then after else failed (Comm.new stack "调用失败") reply sent)
      else failed e reply sent

  unfoldable pub with_data : String → String × Error → Reply → Called Reply
  unfolding with_answer
  with_data address (text, e) reply =
      let url = "http://" <> address in
      let after = with_answer (post url text) reply (url, text) in
      if is_nil e then after else record { error = e; reply = reply; posted = none }

  unfoldable pub with_address :
      ℤ → String → A → Option C → Reply → Option (String × Error) → Option (Called Reply)
  unfolding with_data request_body
  with_address now method args context reply none = none
  with_address now method args context reply (some (address, e)) =
      let after = with_data address (marshal_body (request_body now method args context)) reply in
      if is_nil e then some after else some (record { error = e; reply = reply; posted = none })

  unfoldable pub keep : String → Selector → RoundRobinSelector → Client → Client
  keep name s r client = record client {
    discovery_map = Dict.put client.discovery_map name (record s { round_robin = r });
  }

  unfoldable pub selected_call :
      ℤ
      → String
      → String
      → A
      → Option C
      → Reply
      → Option Selector
      → Client
      → Client × Option (Called Reply)
  unfolding with_address keep
  selected_call now name method args context reply none client = (
    client,
    some (record { error = Comm.new stack ("未订阅服务：" <> name); reply = reply; posted = none }),
  )
  selected_call now name method args context reply (some s) client =
      let (r, address) = selector stack s.services s.round_robin in
      (keep name s r client, with_address now method args context reply address)

  -- `Call`: none where the selector would panic. `reply` is what the reply pointed to before.
  unfoldable pub call :
      ℤ → String → String → A → Option C → Reply → Client → Client × Option (Called Reply)
  unfolding selected_call
  call now name method args context reply client =
      selected_call now name method args context reply (Dict.get client.discovery_map name) client
