-- ===== src/Workflow/Data.antt =====
-- The data of src/vocode/state.py and the enums of src/vocode/models.py that it uses. Ids (UUIDs)
-- and timestamps are numbers, of which the code uses equality and order. A text is its list of code
-- points. A value that the code only passes on (usage statistics, debug and runner state) is an
-- opaque handle.
use codeng.Prelude.{ℕ, Bool, Option, List}
use codeng.Prelude.Dict.{Dict}

abbrev pub Uuid : Type 0
Uuid = ℕ

abbrev pub Timestamp : Type 0
Timestamp = ℕ

abbrev pub Opaque : Type 0
Opaque = ℕ

abbrev pub Text : Type 0
Text = List ℕ

pub data Role : Type 0 where
  developer user assistant system tool : Role

pub data OutputMode : Type 0 where
  show hide_all hide_final : OutputMode

pub data StepContentType : Type 0 where
  markdown raw : StepContentType

pub data RunnerStatus : Type 0 where
  idle running waiting_input stopped finished : RunnerStatus

pub data RunStatus : Type 0 where
  running finished stopped : RunStatus

pub data StepType : Type 0 where
  output_message input_message context_compaction approval rejection : StepType
  prompt prompt_confirm tool_request workflow_request workflow_result : StepType

pub data UserInputMode : Type 0 where
  prompt_reply queue steering : UserInputMode

pub record ToolCallReq : Type 0 where
  pub id : Text
  pub name : Text
  pub arguments : Opaque

pub record ToolCallResp : Type 0 where
  pub id : Text
  pub name : Text
  pub result : Option Opaque

pub record Message : Type 0 where
  pub id : Uuid
  pub role : Role
  pub text : Text
  pub input_mode : Option UserInputMode
  pub thinking_content : Option Text
  pub tool_call_requests : List ToolCallReq
  pub tool_call_responses : List ToolCallResp
  pub llm_usage : Option Opaque
  pub orig_llm_usage : Option Opaque
  pub state : Option Opaque
  pub created_at : Timestamp

pub record BranchRecord : Type 0 where
  pub id : Uuid
  pub head_step_id : Option Uuid
  pub base_step_id : Option Uuid
  pub label : Option Text
  pub created_at : Timestamp

pub record NodeExecution : Type 0 where
  pub id : Uuid
  pub node : Text
  pub previous_id : Option Uuid
  pub branch_id : Option Uuid
  pub input_message_ids : List Uuid
  pub step_ids : List Uuid
  pub status : RunStatus
  pub state : Option Opaque
  pub created_at : Timestamp

pub record Step : Type 0 where
  pub id : Uuid
  pub execution_id : Uuid
  pub parent_step_id : Option Uuid
  pub child_step_ids : List Uuid
  pub type : StepType
  pub message_id : Option Uuid
  pub content_type : StepContentType
  pub output_mode : OutputMode
  pub outcome_name : Option Text
  pub state : Option Opaque
  pub status_hint : Option RunnerStatus
  pub llm_usage : Option Opaque
  pub debug : Option Opaque
  pub is_complete : Bool
  pub is_auxiliary : Bool
  pub is_final : Bool
  pub created_at : Timestamp

pub record WorkflowExecution : Type 0 where
  pub id : Uuid
  pub workflow_name : Text
  pub node_executions : Dict NodeExecution
  pub steps_by_id : Dict Step
  pub messages_by_id : Dict Message
  pub branches_by_id : Dict BranchRecord
  pub active_branch_id : Option Uuid
  pub step_ids : List Uuid
  pub llm_usage : Option Opaque
  pub last_step_llm_usage : Option Opaque
  pub last_user_input_at : Option Timestamp
  pub state : Opaque
  pub created_at : Timestamp
  pub updated_at : Timestamp
