-- ===== src/Graph/Nodes/Gather.antt =====
-- Choosing and running the next tool calls (src/dag_doctor/graph/nodes/gather_evidence.py), and the
-- arguments of a call (src/dag_doctor/graph/arguments.py).
use dag_doctor.Base.{
  ℕ, suc, ◌+◌, min, String, str_eq, same_text, contains, Text, Bool, true, false, ◌&&◌, ◌||◌,
  Option, none, some, List, [], ◌∷◌, ◌++◌, map, take, length, if◌then◌else◌,
}
use dag_doctor.Core.Json.{Fields, end, field, fingerprint}
use dag_doctor.Core.Models.{Evidence}
use dag_doctor.Graph.State.{InvestigationState, tool_calls_remaining, tool_context}
use dag_doctor.Graph.Toolbox
use dag_doctor.Graph.Toolbox.{Toolbox, Tool, arguments_for}
use dag_doctor.Graph.Caller.{ModelCaller, Reply, answer, provider_error, PlannedCall}
use dag_doctor.Graph.Routing.{is_empty}
use dag_doctor.Graph.Nodes.Step.{NodeUpdate, updated, raised}

-- The names of the context's keys.
keys : Fields → List String
keys end = []
keys (field k v rest) = k ∷ keys rest

-- `_fields_left_to_choose(...) is None`: every declared field is already known.
all_known : List String → List String → Bool
all_known known [] = true
all_known known (d ∷ declared) = contains d known && all_known known declared

chosen : Reply Fields → Fields
chosen provider_error = end
chosen (answer fields m p c) = fields

-- `ArgumentResolver.resolve`: nothing is asked where nothing is left to choose, and a model that
-- fails leaves the known facts alone.
resolve_for : Option Tool → InvestigationState → Reply Fields → Fields
unfolding keys all_known chosen tool_context
resolve_for none s reply = end
resolve_for (some tool) s reply =
    if all_known (keys (tool_context s)) tool.declared then end else chosen reply

unfoldable pub resolve : ModelCaller → Toolbox → InvestigationState → ℕ → String → Fields
unfolding resolve_for
resolve caller box s index name =
    resolve_for (Toolbox.find box name) s (caller.arguments s index name)

-- A tool's name and the fingerprint of its arguments: what makes two calls the same.
pub record CallKey : Type 0 where
  pub tool : String
  pub print : Text

abbrev pub same_key : CallKey → CallKey → Bool
same_key a b = str_eq a.tool b.tool && same_text a.print b.print

abbrev pub key_of : Evidence → CallKey
key_of item = record { tool = item.tool_name; print = fingerprint item.tool_input }

abbrev pub is_known : CallKey → List CallKey → Bool
is_known key [] = false
is_known key (k ∷ ks) = same_key key k || is_known key ks

module _ (caller : ModelCaller) (box : Toolbox) (s : InvestigationState) where
  unfoldable pub call_key : ℕ → PlannedCall → CallKey
  call_key index call = record {
    tool = call.tool;
    print =
        fingerprint
          (arguments_for box call.tool (resolve caller box s index call.tool) (tool_context s));
  }

  unfoldable pub run_call : ℕ → PlannedCall → Evidence
  run_call index call =
      Toolbox.run (caller.uuid s index) box call.tool (resolve caller box s index call.tool)
        (tool_context s)

  -- The `for` loop: `already` are the keys known so far; the result is what it appends to
  -- `gathered`.
  unfoldable pub gather_calls : ℕ → List CallKey → List PlannedCall → List Evidence
  gather_calls index already [] = []
  gather_calls index already (call ∷ calls) = elim (is_known (call_key index call) already) [
    | true ↦ gather_calls (suc index) already calls
    | false ↦ run_call index call ∷ gather_calls (suc index) (call_key index call ∷ already) calls
  ]

abbrev pub max_calls_per_iteration : ℕ
max_calls_per_iteration = 4

unfoldable pub gather_planned :
    ModelCaller → Toolbox → InvestigationState → List PlannedCall → List Evidence
gather_planned caller box s calls =
    gather_calls caller box s 0 (map key_of s.evidence)
      (take (min max_calls_per_iteration (tool_calls_remaining s)) calls)

unfoldable pub gathered_state : InvestigationState → List Evidence → InvestigationState
gathered_state s gathered = record s {
  evidence = s.evidence ++ gathered;
  tool_calls_made = s.tool_calls_made + length gathered;
  iteration = s.iteration + 1;
  evidence_exhausted = is_empty gathered;
}

unfoldable pub with_plan :
    ModelCaller → Toolbox → InvestigationState → Reply (List PlannedCall) → NodeUpdate
unfolding gathered_state
with_plan caller box s provider_error = raised
with_plan caller box s (answer calls m p c) =
    updated (gathered_state s (gather_planned caller box s calls)) (some m) p c

-- `GatherEvidenceNode.run`
unfoldable pub run : ModelCaller → Toolbox → InvestigationState → NodeUpdate
unfolding with_plan
run caller box s = with_plan caller box s (caller.plan s)
