-- ===== src/Worker/Commands.antt =====
-- One function over the operations of `WorkerQueueContract` of packages/worker/src/index.ts, and a
-- sequence of calls. Each call comes with the reading of the queue's clock.
use bek.Common.{ℕ, String, Option, List, [], ◌∷◌}
use bek.Common.Json.{Fields}
use bek.Worker.Types.{
  RunWorkItem, RuntimeResult, ApprovalRequest, WorkerEventType, WorkerEvent, WorkerEventInput,
}
use bek.Worker.State
use bek.Worker.State.{QueueOptions, Queue, Outcome, returned, threw}
use bek.Worker.Leases
use bek.Worker.Leases.{ClaimDecision, HeartbeatDecision, ExpireDecision}
use bek.Worker.Enqueue
use bek.Worker.Enqueue.{EnqueueDecision, RedriveDecision}
use bek.Worker.Settle
use bek.Worker.Settle.{SettleDecision}
use bek.Worker.Cancel
use bek.Worker.Cancel.{CancelDecision}
use bek.Worker.Approvals
use bek.Worker.Approvals.{ResumeDecision}
use bek.Worker.Snapshots

-- The operations that change the queue, with their inputs.
pub data Command : Type 0 where
  enqueue : RunWorkItem → Option ℕ → Option ℕ → Command
  claim_next : (worker_id : String) (lease_ms : ℕ) → Option ℕ → Command
  heartbeat : (lease_id : String) (extend_by_ms : Option ℕ) → Option ℕ → Command
  expire_leases : Option ℕ → Command
  settle : (lease_id : String) → RuntimeResult → Option ApprovalRequest → Option ℕ → Command
  cancel_run : (org_id run_id reason : String) → Option ℕ → Command
  redrive_dead_letter :
      (org_id dead_letter_id : String) (reason trace_id : Option String) → Option ℕ → Command
  resume_after_approval : ApprovalRequest → (trace_id : Option String) → Option ℕ → Command
  emit : WorkerEventInput → Command
  emit_runtime_event :
      (lease_id : String) → WorkerEventType → String → Option Fields → Option ℕ → Command

pub data Reply : Type 0 where
  enqueue : EnqueueDecision → Reply
  claim_next : ClaimDecision → Reply
  heartbeat : HeartbeatDecision → Reply
  expire_leases : ExpireDecision → Reply
  settle : SettleDecision → Reply
  cancel_run : CancelDecision → Reply
  redrive_dead_letter : RedriveDecision → Reply
  resume_after_approval : ResumeDecision → Reply
  emit : WorkerEvent → Reply
  emit_runtime_event : Option WorkerEvent → Reply

abbrev pub reply_with : {A : Type 0} → (A → Reply) → Outcome A → Outcome Reply
reply_with f (returned a) = returned (f a)
reply_with f (threw e) = threw e

module _ (o : QueueOptions) where
  unfoldable pub perform : Command → ℕ → Queue → Outcome Reply × Queue
  perform (enqueue item available_at at) clock q =
      let (r, q') = Enqueue.enqueue o item available_at at clock q in
      (reply_with Reply.enqueue r, q')
  perform (claim_next worker_id lease_ms at) clock q =
      let (r, q') = Leases.claim_next o worker_id lease_ms at clock q in
      (reply_with Reply.claim_next r, q')
  perform (heartbeat lease_id extend_by_ms at) clock q =
      let (r, q') = Leases.heartbeat o lease_id extend_by_ms at clock q in
      (reply_with Reply.heartbeat r, q')
  perform (expire_leases at) clock q =
      let (r, q') = Leases.expire_leases o at clock q in (reply_with Reply.expire_leases r, q')
  perform (settle lease_id result approval at) clock q =
      let (r, q') = Settle.settle o lease_id result approval at clock q in
      (reply_with Reply.settle r, q')
  perform (cancel_run org_id run_id reason at) clock q =
      let (r, q') = Cancel.cancel_run o org_id run_id reason at clock q in
      (reply_with Reply.cancel_run r, q')
  perform (redrive_dead_letter org_id dead_letter_id reason trace_id at) clock q =
      let (r, q') =
        Enqueue.redrive_dead_letter o org_id dead_letter_id reason trace_id at clock q in
      (reply_with Reply.redrive_dead_letter r, q')
  perform (resume_after_approval approval trace_id at) clock q =
      let (r, q') = Approvals.resume_after_approval o approval trace_id at clock q in
      (reply_with Reply.resume_after_approval r, q')
  perform (emit input) clock q =
      (returned (Reply.emit (State.event_of o input clock q)), State.emit o input clock q)
  perform (emit_runtime_event lease_id type message data_fields at) clock q =
      let (e, q') = Snapshots.emit_runtime_event o lease_id type message data_fields at clock q in
      (returned (Reply.emit_runtime_event e), q')

  unfoldable pub run : List (Command × ℕ) → Queue → Queue
  run [] q = q
  run ((c, clock) ∷ calls) q = run calls (perform c clock q).1
