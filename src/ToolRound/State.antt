-- ===== src/ToolRound/State.antt =====
-- The plan of a round, the answers of the user and the end of the round. The functions that the
-- runner gives to ToolCallOrchestrator are the parameter `Runner`. An item stands for the request and
-- the step that it refers to.
use codeng.Prelude.{ℕ, Bool, true, false, Option, none, some, List, [], ◌∷◌, ◌++◌, map}
use codeng.Prelude.Texts
use codeng.Prelude.Strings.{codes, strip}
use codeng.Workflow.Data.{Text, Timestamp}

pub data ToolCallReqStatus : Type 0 where
  requires_confirmation pending_execution executing rejected complete : ToolCallReqStatus

pub record Request : Type 0 where
  pub id : Text
  pub name : Text
  pub auto_approved : Option Bool
  pub status : Option ToolCallReqStatus
  pub handled_at : Option Timestamp

pub data ToolCallStatus : Type 0 where
  created completed rejected failed : ToolCallStatus

pub record Response : Type 0 where
  pub id : Text
  pub status : ToolCallStatus
  pub name : Text
  pub message : Text

-- a step with the responses of its message, if it has one
pub record ToolStep : Type 0 where
  pub id : ℕ
  pub is_final : Bool
  pub responses : Option (List Response)

-- the entry `parallel` of the configuration of a tool
pub data Parallel : Type 0 where
  not_set other_value : Parallel
  flag : Bool → Parallel

pub data ToolSpec : Type 0 where
  no_dict : ToolSpec
  dict : Parallel → ToolSpec

pub data Mode : Type 0 where
  sequential parallel : Mode

pub record PlanItem : Type 0 where
  pub request : Request
  pub tool_spec : Option ToolSpec
  pub tool_step : ToolStep
  pub auto_approved : Bool
  pub execution_mode : Mode

pub record Runner : Type 0 where
  pub get_tool_spec : Request → Option ToolSpec
  pub is_auto_approved : Request → Bool
  pub resolve_existing_step : Request → Option ToolStep
  pub create_prompt_step : Request → ToolStep

unfoldable pub resolve_execution_mode : Option ToolSpec → Mode
resolve_execution_mode (some (dict (flag false))) = sequential
resolve_execution_mode _ = parallel

abbrev approved_of : Runner → Request → Bool
approved_of r q = elim q.auto_approved [ none ↦ r.is_auto_approved q | some b ↦ b ]

abbrev first_status : Bool → Option ToolCallReqStatus → ToolCallReqStatus
first_status approved (some st) = st
first_status true none = pending_execution
first_status false none = requires_confirmation

abbrev step_of : Runner → Option ToolStep → Request → ToolStep
step_of r none q = r.create_prompt_step q
step_of r (some step) q = step

unfoldable pub plan_item : Runner → Request → PlanItem
unfolding resolve_execution_mode
plan_item r q =
    let approved = approved_of r q in
    let q' = record q {
      auto_approved = some approved;
      status = some (first_status approved q.status);
    } in
    record {
      request = q';
      tool_spec = r.get_tool_spec q;
      tool_step = step_of r (r.resolve_existing_step q) q';
      auto_approved = approved;
      execution_mode = resolve_execution_mode (r.get_tool_spec q);
    }

unfoldable pub build_plan : Runner → List Request → List PlanItem
unfolding plan_item
build_plan r [] = []
build_plan r (q ∷ qs) = plan_item r q ∷ build_plan r qs

-- what the user answered; the text is that of the message, if there is one
pub data Answer : Type 0 where
  approval other_step : Answer
  rejection : Option Text → Answer

abbrev pub set_status : ToolCallReqStatus → PlanItem → PlanItem
set_status st i = record i { request = record i.request { status = some st } }

abbrev reason : Option Text → Text
unfolding strip
reason none = []
reason (some t) = strip t

unfoldable pub rejection_of : PlanItem → Option Text → Response
unfolding reason
rejection_of i text = record {
  id = i.request.id;
  status = ToolCallStatus.rejected;
  name = i.request.name;
  message = codes "The tool call was rejected by the user. User provided reason: " ++ reason text;
}

abbrev close_step : PlanItem → PlanItem
close_step i = record i { tool_step = record i.tool_step { is_final = true } }

-- whether the call is settled, the item, and the responses
unfoldable pub process_approval_response :
    PlanItem → Option Answer → List Response → Bool × PlanItem × List Response
unfolding rejection_of
process_approval_response i none responses = (false, i, responses)
process_approval_response i (some approval) responses =
    (true, set_status pending_execution i, responses)
process_approval_response i (some (rejection text)) responses = (
  true,
  close_step (set_status ToolCallReqStatus.rejected i),
  responses ++ rejection_of i text ∷ [],
)
process_approval_response i (some other_step) responses = (false, i, responses)

unfoldable pub mark_executing : List PlanItem → List PlanItem
mark_executing items = map (set_status executing) items

abbrev handled : Timestamp → PlanItem → PlanItem
handled now i = record (close_step (set_status complete i)) {
  request = record i.request { status = some complete; handled_at = some now };
}

unfoldable pub mark_complete : Timestamp → List PlanItem → List PlanItem
mark_complete now items = map (handled now) items

abbrev pub ById : Type 0
ById = List (Text × List Response)

abbrev pub responses_at : Option (List Response) → List Response
responses_at none = []
responses_at (some rs) = rs

-- `resp_by_id`
unfoldable pub group_responses : List Response → ById → ById
group_responses [] d = d
group_responses (r ∷ rs) d =
    group_responses rs (Texts.put r.id (responses_at (Texts.get r.id d) ++ r ∷ []) d)

-- a step whose message gets responses
abbrev pub add_step :
    Option (List Response) → Option (List Response) → ToolStep → List ToolStep → List ToolStep
add_step none message step steps = steps
add_step (some rs) none step steps = steps
add_step (some rs) (some _) step steps = record step { responses = some rs } ∷ steps

unfoldable pub tool_steps : ById → List PlanItem → List ToolStep
tool_steps d [] = []
tool_steps d (i ∷ is) =
    add_step (Texts.get i.request.id d) i.tool_step.responses i.tool_step (tool_steps d is)

-- the responses of the message of the assistant, and the steps
unfoldable pub finalize_round : List PlanItem → List Response → List Response × List ToolStep
unfolding group_responses tool_steps
finalize_round plan responses = (responses, tool_steps (group_responses responses []) plan)
