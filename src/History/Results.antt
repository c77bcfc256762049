-- ===== src/History/Results.antt =====
-- src/vocode/history/models.py: what a change of the history reports.
use codeng.Prelude.{Bool, Option, List}
use codeng.Workflow.Data.{Uuid, Timestamp, Text, Step}

pub data HistoryMutationKind : Type 0 where
  fork switch_branch insert : HistoryMutationKind

pub record HistoryBranchSummary : Type 0 where
  pub id : Uuid
  pub head_step_id : Option Uuid
  pub base_step_id : Option Uuid
  pub label : Option Text
  pub created_at : Timestamp
  pub is_active : Bool

pub record HistoryMutationResult : Type 0 where
  pub changed : Bool
  pub mutation_kind : Option HistoryMutationKind
  pub active_branch_id : Option Uuid
  pub created_branch_id : Option Uuid
  pub removed_step_ids : List Uuid
  pub upserted_step_ids : List Uuid
  pub upserted_steps : List Step
  pub branch_summaries : List HistoryBranchSummary
