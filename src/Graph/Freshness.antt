-- ===== src/Graph/Freshness.antt =====
-- About a round of gathering (src/dag_doctor/graph/nodes/gather_evidence.py).
use dag_doctor.Base.{
  ℕ, suc, ◌+◌, ◌≤◌, min, String, true, false, Option, none, some, List, [], ◌∷◌, ◌++◌, map, take,
  length, ◌≡◌, ap, subst, refl, Bool-cases, inl, inr,
}
use dag_doctor.Core.Json.{fingerprint}
use dag_doctor.Core.Models.{Evidence}
use dag_doctor.Graph.State.{InvestigationState, tool_calls_remaining, tool_context}
use dag_doctor.Graph.Toolbox
use dag_doctor.Graph.Toolbox.{
  Toolbox, Tool, arguments_for, arguments_with, run_found, unknown_tool, recorded,
}
use dag_doctor.Graph.Caller.{ModelCaller, Reply, answer, provider_error, PlannedCall}
use dag_doctor.Graph.Routing.{is_empty}
use dag_doctor.Graph.Nodes.Step.{NodeUpdate, updated, raised}
use dag_doctor.Graph.Nodes.Gather
use dag_doctor.Graph.Nodes.Gather.{
  CallKey, key_of, is_known, call_key, run_call, resolve, gather_calls, gather_planned,
  gathered_state, with_plan, max_calls_per_iteration,
}
use dag_doctor.Graph.Effects.{length-gather_planned}

-- No key is one of those before it, or of `already`.
abbrev pub NoRepeat : List CallKey → List CallKey → Type 0
NoRepeat already [] = Unit {0}
NoRepeat already (key ∷ keys) = (is_known key already ≡ false) × NoRepeat (key ∷ already) keys

run_found-key :
    (id : ℕ) (box : Toolbox) (name : String) (s : InvestigationState) (o : Option Tool) (index : ℕ)
    (caller : ModelCaller)
    → key_of (run_found id box name (resolve caller box s index name) (tool_context s) o) ≡ record {
      tool = name;
      print = fingerprint (arguments_with o (resolve caller box s index name) (tool_context s));
    }
unfolding run_found unknown_tool recorded arguments_with
run_found-key id box name s none index caller = refl
run_found-key id box name s (some tool) index caller = refl

module _ (caller : ModelCaller) (box : Toolbox) (s : InvestigationState) where
  -- What is recorded of a call has the key by which the call was looked up.
  key_of-run_call :
      (index : ℕ) (call : PlannedCall)
      → key_of (run_call caller box s index call) ≡ call_key caller box s index call
  unfolding run_call call_key Toolbox.run arguments_for
  key_of-run_call index call =
      run_found-key (caller.uuid s index) box call.tool s (Toolbox.find box call.tool) index caller

  gather_calls-known :
      (index : ℕ) (already : List CallKey) (call : PlannedCall) (calls : List PlannedCall)
      → is_known (call_key caller box s index call) already ≡ true
      → gather_calls caller box s index already (call ∷ calls)
        ≡ gather_calls caller box s (suc index) already calls
  unfolding gather_calls
  gather_calls-known index already call calls h = rw (h, gather_calls)

  gather_calls-new :
      (index : ℕ) (already : List CallKey) (call : PlannedCall) (calls : List PlannedCall)
      → is_known (call_key caller box s index call) already ≡ false
      → gather_calls caller box s index already (call ∷ calls)
        ≡ run_call caller box s index call
          ∷ gather_calls caller box s (suc index) (call_key caller box s index call ∷ already) calls
  unfolding gather_calls
  gather_calls-new index already call calls h = rw (h, gather_calls)

  gather_calls-NoRepeat :
      (index : ℕ) (already : List CallKey) (calls : List PlannedCall)
      → NoRepeat already (map key_of (gather_calls caller box s index already calls))
  unfolding gather_calls
  gather_calls-NoRepeat index already [] = tt
  gather_calls-NoRepeat index already (call ∷ calls) =
      let key = call_key caller box s index call in
      elim (Bool-cases (is_known key already)) [
        | inl h ↦
            rw (gather_calls-known index already call calls h)
              (gather_calls-NoRepeat (suc index) already calls)
        | inr h ↦
            rw (gather_calls-new index already call calls h, key_of-run_call index call)
              (h, gather_calls-NoRepeat (suc index) (key ∷ already) calls)
      ]

-- What a round leaves: the evidence before, and `fresh`.
pub record IsRound (s t : InvestigationState) : Type 0 where
  pub fresh : List Evidence
  pub appended : t.evidence ≡ s.evidence ++ fresh
  pub no_repeat : NoRepeat (map key_of s.evidence) (map key_of fresh)
  pub few : length fresh ≤ min 4 (tool_calls_remaining s)
  pub counted : t.tool_calls_made ≡ s.tool_calls_made + length fresh
  pub spent : t.iteration ≡ s.iteration + 1
  pub noted : t.evidence_exhausted ≡ is_empty fresh

round :
    (caller : ModelCaller) (box : Toolbox) (s : InvestigationState) (calls : List PlannedCall)
    → IsRound s (gathered_state s (gather_planned caller box s calls))
unfolding gathered_state gather_planned
round caller box s calls = record {
  fresh = gather_planned caller box s calls;
  appended = refl;
  no_repeat =
      gather_calls-NoRepeat caller box s 0 (map key_of s.evidence)
        (take (min max_calls_per_iteration (tool_calls_remaining s)) calls);
  few = length-gather_planned caller box s calls;
  counted = refl;
  spent = refl;
  noted = refl;
}

abbrev state_or : InvestigationState → NodeUpdate → InvestigationState
state_or s (updated t m p c) = t
state_or s raised = s

with_plan-IsRound :
    (caller : ModelCaller) (box : Toolbox) (s t : InvestigationState)
    (reply : Reply (List PlannedCall)) (m : Option String) (p c : ℕ)
    → with_plan caller box s reply ≡ updated t m p c
    → IsRound s t
unfolding with_plan
with_plan-IsRound caller box s t provider_error m p c e = absurd cc
with_plan-IsRound caller box s t (answer calls _ _ _) m p c e =
    subst (IsRound s) (ap (state_or s) e) (round caller box s calls)

-- A round of gathering that the model answers keeps the evidence and appends at most four new
-- records, as many as the budget has calls left; none has the tool and arguments of an earlier record
-- or of another new one; each is counted as a call, the round as an iteration, and the evidence is
-- exhausted exactly if nothing new was found.
pub gather-IsRound :
    (caller : ModelCaller) (box : Toolbox) (s t : InvestigationState) (m : Option String) (p c : ℕ)
    → Gather.run caller box s ≡ updated t m p c
    → IsRound s t
unfolding Gather.run
gather-IsRound caller box s t m p c e = with_plan-IsRound caller box s t (caller.plan s) m p c e
