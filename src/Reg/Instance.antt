-- ===== src/Reg/Instance.antt =====
-- A service instance, as nacos' model.Instance and consul's service entries give it, and the
-- addresses that the framework makes of it.
use foundation_framework.Base.{ℕ, String, Bool, Option, none, some}
use foundation_framework.Base.Int.{pos}
use foundation_framework.Base.Dict.{Dict}
use foundation_framework.Base.Decimal.{format_int}
use foundation_framework.Err.{◌<>◌}

pub record Instance : Type 0 where
  pub ip : String
  pub port : ℕ
  pub enable : Bool
  pub metadata : Dict String

-- `m[k]` of a map of strings: "" for a missing key.
unfoldable pub or_empty : Option String → String
or_empty none = ""
or_empty (some v) = v

-- `fmt.Sprintf("%s:%d", ip, port)`
unfoldable pub address : Instance → String
address i = i.ip <> ":" <> format_int (pos i.port)
