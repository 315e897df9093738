-- ===== src/Xxl/TaskList.antt =====
-- xxl/task_list.go: a map from a key to the address of a task. Each method holds the list's mutex,
-- so each is one atomic step.
use foundation_framework.Base.{ℕ, String, Bool, Option}
use foundation_framework.Base.{length as list_length}
use foundation_framework.Base.Dict
use foundation_framework.Base.Dict.{Dict}

abbrev pub TaskList : Type 0
TaskList = Dict ℕ

abbrev pub set : String → ℕ → TaskList → TaskList
set key val t = Dict.put t key val

abbrev pub get : String → TaskList → Option ℕ
get key t = Dict.get t key

abbrev pub get_all : TaskList → TaskList
get_all t = t

abbrev pub del : String → TaskList → TaskList
del key t = Dict.remove t key

abbrev pub length : TaskList → ℕ
length t = list_length t

abbrev pub exists : String → TaskList → Bool
exists key t = Dict.has t key
