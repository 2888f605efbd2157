-- ===== src/Graph/Toolbox.antt =====
-- The tools as the graph sees them (src/dag_doctor/graph/toolbox.py).
use dag_doctor.Base.{
  ℕ, String, codes, str_eq, contains, join, ◌+++◌, Bool, true, false, ◌&&◌, not, Option, none, some,
  List, [], ◌∷◌, is_some, if◌then◌else◌,
}
use dag_doctor.Core.Json.{Json, null, str, Fields, end, field, get, text_ltb}
use dag_doctor.Core.Models.{Evidence}
use dag_doctor.Tools.Envelope.{ToolResult, succeeded, summarise, payload}

-- A `RunnableTool`: `declared` are the properties of its input schema. Its outcome may depend on
-- anything in the world, so `run` also takes the number of the call.
pub record Tool : Type 0 where
  pub name : String
  pub declared : List String
  pub run : ℕ → Fields → ToolResult

pub record Toolbox : Type 0 where
  pub tools : List Tool

-- `{tool.name: tool for tool in tools}`: of two tools with one name the later stays.
find_from : Option Tool → String → List Tool → Option Tool
find_from found name [] = found
find_from found name (tool ∷ tools) =
    find_from (if str_eq tool.name name then some tool else found) name tools

unfoldable pub find : Toolbox → String → Option Tool
unfolding find_from
find box name = find_from none name box.tools

insert_name : String → List String → List String
insert_name x [] = x ∷ []
insert_name x (y ∷ ys) =
    if str_eq x y
    then y ∷ ys
    else if text_ltb (codes x) (codes y)
    then x ∷ y ∷ ys
    else y ∷ insert_name x ys

-- `sorted(self._tools)`: each name once.
unfoldable pub names_of : List Tool → List String
unfolding insert_name
names_of [] = []
names_of (tool ∷ tools) = insert_name tool.name (names_of tools)

unfoldable pub names : Toolbox → List String
unfolding names_of
names box = names_of box.tools

-- A value that is null or empty does not count as supplied.
unfoldable pub is_given : Json → Bool
is_given null = false
is_given (str []) = false
is_given _ = true

unfoldable pub given : Fields → Fields
unfolding is_given
given end = end
given (field k v rest) = if is_given v then field k v (given rest) else given rest

-- `{**known, **supplied}`, where no key of `known` is one of `supplied`: the known facts that the
-- tool declares and the model left out, then what it supplied.
unfoldable pub fill : List String → Fields → Fields → Fields
unfolding get
fill declared supplied end = supplied
fill declared supplied (field k v rest) =
    if contains k declared && not (is_some (get k supplied))
    then field k v (fill declared supplied rest)
    else fill declared supplied rest

-- `_with_context`; an empty context is as none.
unfoldable pub with_context : Tool → Fields → Fields → Fields
unfolding given fill
with_context tool arguments context = fill tool.declared (given arguments) context

unfoldable pub arguments_with : Option Tool → Fields → Fields → Fields
arguments_with none arguments context = arguments
arguments_with (some tool) arguments context = with_context tool arguments context

unfoldable pub arguments_for : Toolbox → String → Fields → Fields → Fields
unfolding arguments_with
arguments_for box name arguments context = arguments_with (find box name) arguments context

-- The evidence for a tool that does not exist. Its summary quotes the name as `repr` does for a
-- name with no quote or backslash in it.
unfoldable pub unknown_tool : ℕ → Toolbox → String → Fields → Evidence
unknown_tool id box name arguments =
    let available = join ", " (names box) in
    record {
      id = id;
      tool_name = name;
      tool_input = arguments;
      result =
          field "error" (str (codes "unknown_tool"))
            (field "available" (str (codes available)) end);
      summary = codes ("no tool named '" +++ name +++ "'; available tools are " +++ available);
      succeeded = false;
      duration_ms = 0;
    }

unfoldable pub recorded : ℕ → String → Fields → ToolResult → Evidence
recorded id name supplied result = record {
  id = id;
  tool_name = name;
  tool_input = supplied;
  result = payload result;
  summary = summarise result;
  succeeded = succeeded result;
  duration_ms = result.duration_ms;
}

unfoldable pub run_found : ℕ → Toolbox → String → Fields → Fields → Option Tool → Evidence
unfolding unknown_tool recorded
run_found id box name arguments context none = unknown_tool id box name arguments
run_found id box name arguments context (some tool) =
    let supplied = with_context tool arguments context in
    recorded id name supplied (tool.run id supplied)

-- `Toolbox.run`: an evidence record for a result of the tool, or for an unknown one. `id` is the
-- fresh id of the record, which also numbers the call.
unfoldable pub run : ℕ → Toolbox → String → Fields → Fields → Evidence
unfolding run_found
run id box name arguments context = run_found id box name arguments context (find box name)
