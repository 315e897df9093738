-- ===== src/Xxl/Log.antt =====
-- Logs of jobs: `mysqlLog` of xxl/log_handler.go, and `taskLog` of xxl/executor.go. `format` is the
-- layout of a time, and `sprintf_v` what `%+v` prints of an error.
use foundation_framework.Base.{
  ℕ, String, Bool, true, Option, none, some, List, [], ◌∷◌, ◌++◌, if◌then◌else◌, ◌==◌, ltb,
}
use foundation_framework.Base.Int.{ℤ, pos, eqb_ℤ}
use foundation_framework.Base.Order.{sort}
use foundation_framework.Err.{Error, is_nil, error_text, ◌<>◌}
use foundation_framework.Xxl.Dto.{Body, decoded, refused, null, LogReq, LogRes}

-- A time is a number.
pub record LogPo : Type 0 where
  pub log_id : ℤ
  pub level : ℕ
  pub text : String
  pub created_at : ℕ

-- The row that `Info` (level 0) and `Error` (level 1) save.
unfoldable pub logged : ℕ → ℤ → String → ℕ → List LogPo → List LogPo
logged level id text now rows =
    rows ++ record { log_id = id; level = level; text = text; created_at = now } ∷ []

-- `Where("log_id = ?", id)`
unfoldable pub rows_of : ℤ → List LogPo → List LogPo
rows_of id [] = []
rows_of id (p ∷ rows) = let rest = rows_of id rows in if eqb_ℤ p.log_id id then p ∷ rest else rest

-- `Order("created_at")`
unfoldable pub earlier : LogPo → LogPo → Bool
earlier p q = ltb p.created_at q.created_at

module _ (format : ℕ → String) (sprintf_v : Error → String) where
  unfoldable pub line : LogPo → String
  line p =
      format p.created_at <> (if p.level == 0 then " INFO  => " else " ERROR => ") <> p.text <> "\n"

  unfoldable pub lines : List LogPo → String
  lines [] = ""
  lines (p ∷ rows) = line p <> lines rows

  abbrev answer : ℤ → LogReq → ℕ → String → String → LogRes
  answer code req to_line msg text = record {
    code = code;
    msg = msg;
    content = record {
      from_line_num = req.from_line_num;
      to_line_num = pos to_line;
      log_content = text;
      is_end = true;
    };
  }

  -- `Handler` of the log in MySQL, with the table and the error of the query.
  unfoldable pub handler : LogReq → List LogPo → Error → LogRes
  unfolding rows_of
  handler req rows e =
      if is_nil e
      then answer (pos 200) req 2 "" (lines (sort earlier (rows_of req.log_id rows)))
      else answer (pos 500) req 2 "" ("find log error：" <> sprintf_v e)

  unfoldable pub req_err_log_handler : LogReq → Error → LogRes
  req_err_log_handler req e = answer (pos 500) req 0 (error_text e) (error_text e)

  -- What a log object answers, if the executor has one.
  logged_answer : Option (List LogPo × Error) → LogReq → LogRes
  logged_answer (some (rows, e)) req = handler req rows e
  logged_answer none req = answer (pos 200) req 2 "" "这是日志默认返回，说明没有设置xxl.Log"

  abbrev empty_req : LogReq
  empty_req = record { log_date_tim = pos 0; log_id = pos 0; from_line_num = pos 0 }

  unread : Body LogReq → Error → Option (List LogPo × Error) → Option LogRes
  unfolding logged_answer
  unread (decoded req) e log = some (logged_answer log req)
  unread (refused req) e log = some (req_err_log_handler req e)
  unread null e log = none

  -- `taskLog`, with the error of reading the body, the body, and the error of decoding it: none where
  -- it dereferences nil, which the JSON `null` leads to.
  unfoldable pub task_log :
      Error → Body LogReq → Error → Option (List LogPo × Error) → Option LogRes
  unfolding unread
  task_log read body e log =
      if is_nil read then unread body e log else some (req_err_log_handler empty_req read)

  -- The lines of a log in a table, read from the front.
  unfoldable pub shown : ℤ → List LogPo → String
  shown id [] = ""
  shown id (p ∷ rows) =
      let rest = shown id rows in if eqb_ℤ p.log_id id then line p <> rest else rest
