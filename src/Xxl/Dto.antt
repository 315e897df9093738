-- ===== src/Xxl/Dto.antt =====
-- xxl/dto.go: the messages between the executor and the scheduler. An `interface{}` field holds the
-- text that the code puts there. A request body is what `json.Unmarshal` makes of it.
use foundation_framework.Base.{String, Bool}
use foundation_framework.Base.Int.{ℤ}

-- A decoded body; a body that is refused, with what was decoded before; or the JSON `null`, which
-- sets the pointer to nil without an error.
pub data Body (A : Type 0) : Type 0 where
  decoded refused : A → Body A
  null : Body A

-- The response to most requests: 200, or another code for a failure.
pub record Res : Type 0 where
  pub code : ℤ
  pub msg : String

pub record Registry : Type 0 where
  pub registry_group : String
  pub registry_key : String
  pub registry_value : String

pub record ExecuteResult : Type 0 where
  pub code : ℤ
  pub msg : String

pub record CallElement : Type 0 where
  pub log_id : ℤ
  pub log_date_tim : ℤ
  pub execute_result : ExecuteResult
  pub handle_code : ℤ
  pub handle_msg : String

abbrev pub serial_execution : String
serial_execution = "SERIAL_EXECUTION"

abbrev pub discard_later : String
discard_later = "DISCARD_LATER"

abbrev pub cover_early : String
cover_early = "COVER_EARLY"

pub record RunReq : Type 0 where
  pub job_id : ℤ
  pub executor_handler : String
  pub executor_params : String
  pub executor_block_strategy : String
  pub executor_timeout : ℤ
  pub log_id : ℤ
  pub log_date_time : ℤ
  pub glue_type : String
  pub glue_source : String
  pub glue_updatetime : ℤ
  pub broadcast_index : ℤ
  pub broadcast_total : ℤ

pub record KillReq : Type 0 where
  pub job_id : ℤ

pub record IdleBeatReq : Type 0 where
  pub job_id : ℤ

pub record LogReq : Type 0 where
  pub log_date_tim : ℤ
  pub log_id : ℤ
  pub from_line_num : ℤ

pub record LogResContent : Type 0 where
  pub from_line_num : ℤ
  pub to_line_num : ℤ
  pub log_content : String
  pub is_end : Bool

pub record LogRes : Type 0 where
  pub code : ℤ
  pub msg : String
  pub content : LogResContent
