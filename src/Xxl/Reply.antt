-- ===== src/Xxl/Reply.antt =====
-- xxl/util.go: the bodies that the executor answers with, before `json.Marshal`.
use foundation_framework.Base.{String, if◌then◌else◌}
use foundation_framework.Base.Int.{ℤ, pos, eqb_ℤ}
use foundation_framework.Base.Decimal.{format_int}
use foundation_framework.Xxl.Dto.{Res, CallElement, RunReq, LogRes}

-- `Int64ToStr`
unfoldable pub int64_to_str : ℤ → String
int64_to_str i = format_int i

-- A body written: a list of one `callElement`, a `res`, or a log response.
pub data Reply : Type 0 where
  call : CallElement → Reply
  general : Res → Reply
  log_res : LogRes → Reply

unfoldable pub return_call : RunReq → ℤ → String → Reply
return_call req code msg = call (record {
  log_id = req.log_id;
  log_date_tim = req.log_date_time;
  execute_result = record { code = code; msg = msg };
  handle_code = code;
  handle_msg = msg;
})

unfoldable pub return_kill : ℤ → Reply
return_kill code =
    general (record { code = code; msg = if eqb_ℤ code (pos 200) then "" else "Task kill err" })

unfoldable pub return_idle_beat : ℤ → Reply
return_idle_beat code =
    general (record { code = code; msg = if eqb_ℤ code (pos 200) then "" else "Task is busy" })

unfoldable pub return_general : Reply
return_general = general (record { code = pos 200; msg = "" })
