-- ===== src/ToolRound/Tests.antt =====
-- Rounds of calls at concrete inputs.
use codeng.Prelude.{
  ℕ, suc, ◌+◌, ◌≡◌, refl, ap, true, false, Option, none, some, List, [], ◌∷◌, length, map,
}
use codeng.Prelude.Strings.{codes}
use codeng.Workflow.Data.{Text}
use codeng.ToolRound.State.{
  Request, Response, created, ToolStep, PlanItem, ToolSpec, dict, flag, Runner, build_plan,
  finalize_round,
}
use codeng.ToolRound.Execute.{Executor, execute_plan}
use codeng.ToolRound.Runs.{runs_of, execute_runs, execute_plan-execute_runs, length-execute_plan}
use codeng.ToolRound.Grouped.{answered_steps, finalize_round-answered}

abbrev request : Text → Text → Request
request id name = record {
  id = id;
  name = name;
  auto_approved = none;
  status = none;
  handled_at = none;
}

abbrev requests : List Request
requests =
    request (codes "a") (codes "read")
    ∷ request (codes "b") (codes "grep")
    ∷ request (codes "c") (codes "edit!")
    ∷ request (codes "d") (codes "read")
    ∷ []

abbrev step : ℕ → ToolStep
step n = record { id = n; is_final = false; responses = some [] }

-- the tool with the longer name runs alone
abbrev spec : Text → Option ToolSpec
spec (_ ∷ _ ∷ _ ∷ _ ∷ _ ∷ _) = some (dict (flag false))
spec _ = none

abbrev runner : Runner
runner = record {
  get_tool_spec = λ (q : Request). spec q.name;
  is_auto_approved = λ q. true;
  resolve_existing_step = λ q. none;
  create_prompt_step = λ (q : Request). step (length q.id);
}

abbrev plan : List PlanItem
unfolding build_plan
plan = build_plan runner requests

-- a world that counts the calls
abbrev counting : Executor ℕ Text
counting = record {
  execute = λ (q : Request) n. (q.name, suc n);
  gather = λ qs n. (map (λ (q : Request). q.name) qs, length qs + n);
}

execute_plan-execute_runs_example :
    execute_plan counting plan 0 ≡ execute_runs counting (runs_of plan) 0
execute_plan-execute_runs_example = execute_plan-execute_runs counting plan 0

length-names : (qs : List Request) → length (map (λ (q : Request). q.name) qs) ≡ length qs
length-names [] = refl
length-names (q ∷ qs) = ap suc (length-names qs)

length-execute_plan_example : length (execute_plan counting plan 0).0 ≡ length plan
length-execute_plan_example = length-execute_plan counting (λ qs n. length-names qs) plan 0

abbrev response : Text → Text → Response
response id message = record { id = id; status = created; name = codes "read"; message = message }

abbrev responses : List Response
responses =
    response (codes "a") (codes "one")
    ∷ response (codes "d") (codes "two")
    ∷ response (codes "a") (codes "three")
    ∷ []

finalize_round-answered_example :
    finalize_round plan responses ≡ (responses, answered_steps responses plan)
finalize_round-answered_example = finalize_round-answered plan responses
