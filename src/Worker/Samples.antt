-- ===== src/Worker/Samples.antt =====
-- Records and queues that the tests of the worker queue start from:
-- packages/worker/src/index.ts.
use bek.Common.{◌≡◌, refl, inl, true, false, none, some, [], ◌∷◌, concat, decimal, arith}
use bek.Worker.Types.{
  RuntimeWorkReason, RunWorkItem, RiskLevel, ApprovalStatus, ApprovalRequest, WorkStatus,
  AttemptState, WorkerLease, WorkerApprovalGate, WorkerWorkRecord,
}
use bek.Worker.Attempts.{default_worker_retry_policy, assert_retry_policy}
use bek.Worker.State.{QueueOptions, Queue}
use bek.Worker.Evolution.{IsValid}
use bek.Worker.Evolution.Keeps.{Inv}

abbrev pub options : QueueOptions
options = record {
  id_factory = λ prefix n. concat (prefix ∷ "_" ∷ decimal n ∷ []);
  redactor = record { redact_secrets = λ s. s; is_sensitive_field_name = λ _. false };
  retry_policy = default_worker_retry_policy;
}

pub options_ok : assert_retry_policy options.retry_policy ≡ true
unfolding assert_retry_policy
options_ok = refl

abbrev pub item : RunWorkItem
item = record {
  org_id = "org_1";
  run_id = "run_1";
  attempt = 1;
  reason = RuntimeWorkReason.new_run;
  trace_id = "trace_1";
  enqueued_at = 10;
}

abbrev pub fresh : WorkerWorkRecord
fresh = record {
  id = "work_0";
  sequence = 1;
  idempotency_key = "run_attempt:org_1:run_1:1";
  item = item;
  status = WorkStatus.queued;
  attempt_state = AttemptState.queued;
  available_at = 10;
  created_at = 10;
  updated_at = 10;
  lease = none;
  approval = none;
  retry_of = none;
  cancel_requested_at = none;
  cancel_reason = none;
  terminal_reason = none;
  result = none;
}

abbrev pub lease : WorkerLease
lease = record {
  id = "lease_1";
  idempotency_key = "run_attempt:org_1:run_1:1";
  worker_id = "worker_1";
  org_id = "org_1";
  run_id = "run_1";
  attempt = 1;
  trace_id = "trace_1";
  claimed_at = 20;
  heartbeat_at = 20;
  expires_at = 50;
}

abbrev pub working : WorkerWorkRecord
working = record fresh {
  status = WorkStatus.claimed;
  attempt_state = AttemptState.claimed;
  lease = some lease;
}

abbrev pub stopping : WorkerWorkRecord
stopping = record working {
  attempt_state = AttemptState.cancel_requested;
  cancel_requested_at = some 30;
  cancel_reason = some "No longer needed.";
}

abbrev pub finished : WorkerWorkRecord
finished = record fresh { status = WorkStatus.completed; attempt_state = AttemptState.completed }

abbrev pub approval : ApprovalRequest
approval = record {
  id = "approval_1";
  org_id = "org_1";
  run_id = "run_1";
  action = "send_mail";
  risk = RiskLevel.write_external;
  status = ApprovalStatus.approved;
  payload_hash = "sha256:1";
  payload_metadata = none;
  requested_by_principal_id = "principal_1";
  decided_by_principal_id = some "principal_2";
  created_at = 20;
  expires_at = 100;
  decided_at = some 40;
}

abbrev pub gate : WorkerApprovalGate
gate = record {
  approval_id = "approval_1";
  payload_hash = "sha256:1";
  payload_metadata = none;
  action = "send_mail";
  risk = RiskLevel.write_external;
  status = ApprovalStatus.pending;
  created_at = 20;
  expires_at = 100;
}

abbrev pub waiting : WorkerWorkRecord
waiting = record fresh {
  status = WorkStatus.awaiting_approval;
  attempt_state = AttemptState.awaiting_approval;
  approval = some gate;
}

-- The queue of one record.
abbrev pub queue_of : WorkerWorkRecord → Queue
queue_of r = record {
  records = r ∷ [];
  dead_letters = [];
  events = [];
  next_sequence = 2;
  next_id = 2;
}

pub queue_of-Inv : (r : WorkerWorkRecord) → IsValid r → r.sequence ≡ 1 → Inv (queue_of r)
queue_of-Inv r v e = record {
  valid = (v, tt);
  records = ground (arith, e);
  letters = omega arith;
  events = omega arith;
}

pub fresh-IsValid : IsValid fresh
fresh-IsValid = record { consistent = (refl, refl, refl); gated = tt }

pub working-IsValid : IsValid working
working-IsValid = record { consistent = (refl, inl (refl, refl)); gated = tt }

pub stopping-IsValid : IsValid stopping
stopping-IsValid = ground arith

pub finished-IsValid : IsValid finished
finished-IsValid = ground arith

pub waiting-IsValid : IsValid waiting
waiting-IsValid = ground arith
