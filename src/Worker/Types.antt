-- ===== src/Worker/Types.antt =====
-- The data of the worker queue: packages/worker/src/index.ts, with the work item and the result
-- of packages/runtime/src/index.ts and the approval request of packages/core/src/types.ts.
-- An instant is its number of milliseconds; an optional field is an `Option`.
use bek.Common.{ℕ, String, Option, List}
use bek.Common.Json.{Fields}

pub data RuntimeWorkReason : Type 0 where
  new_run approval_granted retry resume : RuntimeWorkReason

pub record RunWorkItem : Type 0 where
  pub org_id : String
  pub run_id : String
  pub attempt : ℕ
  pub reason : RuntimeWorkReason
  pub trace_id : String
  pub enqueued_at : ℕ

pub data ResultStatus : Type 0 where
  completed awaiting_approval failed cancelled : ResultStatus

pub record RuntimeArtifactRef : Type 0 where
  pub id : String
  pub kind : String
  pub content_hash : String
  pub size_bytes : ℕ
  pub uri : Option String

pub record RuntimeResult : Type 0 where
  pub status : ResultStatus
  pub final_text : Option String
  pub artifact_refs : List RuntimeArtifactRef
  pub actual_cost_cents : ℕ
  pub error : Option String

pub data RiskLevel : Type 0 where
  read_internal write_draft write_external privileged : RiskLevel

pub data ApprovalStatus : Type 0 where
  pending approved denied expired : ApprovalStatus

pub record ApprovalRequest : Type 0 where
  pub id : String
  pub org_id : String
  pub run_id : String
  pub action : String
  pub risk : RiskLevel
  pub status : ApprovalStatus
  pub payload_hash : String
  pub payload_metadata : Option Fields
  pub requested_by_principal_id : String
  pub decided_by_principal_id : Option String
  pub created_at : ℕ
  pub expires_at : ℕ
  pub decided_at : Option ℕ

pub data WorkStatus : Type 0 where
  queued claimed awaiting_approval completed failed cancelled dead : WorkStatus

pub data AttemptState : Type 0 where
  queued claimed awaiting_approval retry_scheduled cancel_requested completed cancelled
        dead_lettered :
      AttemptState

pub record WorkerRetryPolicy : Type 0 where
  pub max_attempts : ℕ
  pub base_delay_ms : ℕ
  pub max_delay_ms : ℕ

pub record WorkerLease : Type 0 where
  pub id : String
  pub idempotency_key : String
  pub worker_id : String
  pub org_id : String
  pub run_id : String
  pub attempt : ℕ
  pub trace_id : String
  pub claimed_at : ℕ
  pub heartbeat_at : ℕ
  pub expires_at : ℕ

pub record WorkerApprovalGate : Type 0 where
  pub approval_id : String
  pub payload_hash : String
  pub payload_metadata : Option Fields
  pub action : String
  pub risk : RiskLevel
  pub status : ApprovalStatus
  pub created_at : ℕ
  pub expires_at : ℕ

pub record WorkerWorkRecord : Type 0 where
  pub id : String
  pub sequence : ℕ
  pub idempotency_key : String
  pub item : RunWorkItem
  pub status : WorkStatus
  pub attempt_state : AttemptState
  pub available_at : ℕ
  pub created_at : ℕ
  pub updated_at : ℕ
  pub lease : Option WorkerLease
  pub approval : Option WorkerApprovalGate
  pub retry_of : Option String
  pub cancel_requested_at : Option ℕ
  pub cancel_reason : Option String
  pub terminal_reason : Option String
  pub result : Option RuntimeResult

pub record WorkerDeadLetterRecord : Type 0 where
  pub id : String
  pub sequence : ℕ
  pub work_id : String
  pub idempotency_key : String
  pub item : RunWorkItem
  pub reason : String
  pub failed_at : ℕ
  pub result : RuntimeResult
  pub retry_policy : WorkerRetryPolicy

-- `worker.claimed` is one of the runtime's events; the rest of the runtime's go by their name.
pub data WorkerEventType : Type 0 where
  enqueued heartbeat lease_expired retry_scheduled approval_waiting approval_resumed
        approval_blocked cancel_requested redrive_enqueued completed failed dead_lettered cancelled
        claimed :
      WorkerEventType
  runtime : String → WorkerEventType

pub record WorkerEvent : Type 0 where
  pub id : String
  pub sequence : ℕ
  pub type : WorkerEventType
  pub org_id : String
  pub run_id : String
  pub attempt : Option ℕ
  pub trace_id : Option String
  pub message : String
  pub data_fields : Option Fields
  pub created_at : ℕ

pub record WorkerEventInput : Type 0 where
  pub type : WorkerEventType
  pub org_id : String
  pub run_id : String
  pub attempt : Option ℕ
  pub trace_id : Option String
  pub message : String
  pub data_fields : Option Fields
  pub now : Option ℕ
