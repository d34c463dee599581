-- ===== src/Worker/Attempts.antt =====
-- Attempt states, statuses, retry policy and keys: the pure helpers of packages/worker/src/index.ts.
pub mod Delays
use bek.Common.{
  ℕ, ◌-◌, ◌*◌, ◌^◌, min, String, Bool, true, false, ◌||◌, ◌&&◌, List, [], ◌∷◌, Option, none, some,
  any, ltb, if◌then◌else◌, concat, decimal,
}
use bek.Worker.Types.{
  RuntimeWorkReason, RunWorkItem, RiskLevel, ApprovalRequest, WorkStatus, AttemptState,
  WorkerRetryPolicy, WorkerApprovalGate,
}

-- `===` on attempt states.
abbrev pub same_state : AttemptState → AttemptState → Bool
same_state AttemptState.queued AttemptState.queued = true
same_state AttemptState.claimed AttemptState.claimed = true
same_state AttemptState.awaiting_approval AttemptState.awaiting_approval = true
same_state AttemptState.retry_scheduled AttemptState.retry_scheduled = true
same_state AttemptState.cancel_requested AttemptState.cancel_requested = true
same_state AttemptState.completed AttemptState.completed = true
same_state AttemptState.cancelled AttemptState.cancelled = true
same_state AttemptState.dead_lettered AttemptState.dead_lettered = true
same_state _ _ = false

unfoldable pub run_attempt_state_transitions : AttemptState → List AttemptState
run_attempt_state_transitions AttemptState.queued =
    AttemptState.claimed ∷ AttemptState.cancelled ∷ []
run_attempt_state_transitions AttemptState.claimed =
    AttemptState.queued ∷ AttemptState.awaiting_approval ∷ AttemptState.retry_scheduled
    ∷ AttemptState.cancel_requested ∷ AttemptState.completed ∷ AttemptState.cancelled
    ∷ AttemptState.dead_lettered ∷ []
run_attempt_state_transitions AttemptState.awaiting_approval =
    AttemptState.queued ∷ AttemptState.cancelled ∷ []
run_attempt_state_transitions AttemptState.cancel_requested = AttemptState.cancelled ∷ []
run_attempt_state_transitions AttemptState.retry_scheduled = []
run_attempt_state_transitions AttemptState.completed = []
run_attempt_state_transitions AttemptState.cancelled = []
run_attempt_state_transitions AttemptState.dead_lettered = []

unfoldable pub can_transition_run_attempt_state : AttemptState → AttemptState → Bool
unfolding any run_attempt_state_transitions
can_transition_run_attempt_state current next =
    same_state current next || any (λ s. same_state s next) (run_attempt_state_transitions current)

unfoldable pub is_active_status : WorkStatus → Bool
is_active_status WorkStatus.queued = true
is_active_status WorkStatus.claimed = true
is_active_status WorkStatus.awaiting_approval = true
is_active_status _ = false

-- `status === "claimed"` and `status === "queued"`.
abbrev pub is_claimed : WorkStatus → Bool
is_claimed WorkStatus.claimed = true
is_claimed _ = false

abbrev pub is_queued : WorkStatus → Bool
is_queued WorkStatus.queued = true
is_queued _ = false

abbrev pub is_awaiting : WorkStatus → Bool
is_awaiting WorkStatus.awaiting_approval = true
is_awaiting _ = false

-- How a status reads in a message.
abbrev pub status_name : WorkStatus → String
status_name WorkStatus.queued = "queued"
status_name WorkStatus.claimed = "claimed"
status_name WorkStatus.awaiting_approval = "awaiting_approval"
status_name WorkStatus.completed = "completed"
status_name WorkStatus.failed = "failed"
status_name WorkStatus.cancelled = "cancelled"
status_name WorkStatus.dead = "dead"

abbrev pub reason_name : RuntimeWorkReason → String
reason_name RuntimeWorkReason.new_run = "new_run"
reason_name RuntimeWorkReason.approval_granted = "approval_granted"
reason_name RuntimeWorkReason.retry = "retry"
reason_name RuntimeWorkReason.resume = "resume"

abbrev pub risk_name : RiskLevel → String
risk_name RiskLevel.read_internal = "read_internal"
risk_name RiskLevel.write_draft = "write_draft"
risk_name RiskLevel.write_external = "write_external"
risk_name RiskLevel.privileged = "privileged"

unfoldable pub create_worker_idempotency_key : RunWorkItem → String
unfolding decimal
create_worker_idempotency_key item =
    concat ("run_attempt:" ∷ item.org_id ∷ ":" ∷ item.run_id ∷ ":" ∷ decimal item.attempt ∷ [])

-- `assertRetryPolicy`: false where it throws.
unfoldable pub assert_retry_policy : WorkerRetryPolicy → Bool
assert_retry_policy policy =
    if ltb policy.max_attempts 1
    then false
    else if ltb policy.base_delay_ms 1 || ltb policy.max_delay_ms 1
    then false
    else true

abbrev pub default_worker_retry_policy : WorkerRetryPolicy
default_worker_retry_policy = record {
  max_attempts = 3;
  base_delay_ms = 1000;
  max_delay_ms = 30000;
}

-- `none` where the policy is refused. `Math.max(0, failedAttempt - 1)` is the subtraction of ℕ.
unfoldable pub retry_delay_ms : ℕ → WorkerRetryPolicy → Option ℕ
unfolding assert_retry_policy
retry_delay_ms failed_attempt policy =
    if assert_retry_policy policy
    then some (min policy.max_delay_ms (policy.base_delay_ms * 2 ^ (failed_attempt - 1)))
    else none

unfoldable pub approval_gate_from_request : ApprovalRequest → WorkerApprovalGate
approval_gate_from_request approval = record {
  approval_id = approval.id;
  payload_hash = approval.payload_hash;
  payload_metadata = approval.payload_metadata;
  action = approval.action;
  risk = approval.risk;
  status = approval.status;
  created_at = approval.created_at;
  expires_at = approval.expires_at;
}
