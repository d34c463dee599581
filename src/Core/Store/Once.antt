-- ===== src/Core/Store/Once.antt =====
-- An approval is decided once: `decideApproval` of packages/core/src/store.ts.
use bek.Common.{
  ℕ, ◌≡◌, refl, true, false, some, find_index, find_index-some, find_index-set, ◌==◌, String, arith,
}
use bek.Worker.Types.{ApprovalRequest}
use bek.Core.Store.Types.{Store}
use bek.Core.Store.Approvals.{
  ApprovalDecision, ApprovalDecisionInput, no_longer_pending, returned, threw, decision_status,
  is_pending, StoreOptions, decide_found, decide_approval,
}
use bek.Core.Store.Decisions.{decide_approval-IsDecided}

module _ (o : StoreOptions) where
  decide_found-over :
      (i : ℕ) (approval : ApprovalRequest) (decision : ApprovalDecision)
      (input : ApprovalDecisionInput) (now later : ℕ) (s : Store)
      → is_pending approval.status ≡ false
      → decide_found o i approval decision input now later s ≡ (threw no_longer_pending, s)
  unfolding decide_found
  decide_found-over i approval decision input now later s over = rw over refl

  decided-not_pending : (d : ApprovalDecision) → is_pending (decision_status d) ≡ false
  decided-not_pending d = ground arith

  decide_again :
      (approval_id : String) (decision : ApprovalDecision) (input : ApprovalDecisionInput)
      (clock later : ℕ) (s : Store) (decided : ApprovalRequest) {i : ℕ}
      → find_index (λ (a : ApprovalRequest). a.id == approval_id) s.approvals ≡ some (i, decided)
      → is_pending decided.status ≡ false
      → decide_approval o approval_id decision input clock later s ≡ (threw no_longer_pending, s)
  unfolding decide_approval
  decide_again approval_id decision input clock later s decided {i} f over =
      rw (f, decide_approval) (decide_found-over i decided decision input _ later s over)

  -- An approval is decided once: a second decision of it, whatever it is and whoever makes it,
  -- throws, and leaves the store as it is.
  pub decide_approval-once :
      (approval_id : String) (decision again : ApprovalDecision)
      (input input' : ApprovalDecisionInput) (clock later clock' later' : ℕ) (s : Store)
      (decided : ApprovalRequest)
      → (decide_approval o approval_id decision input clock later s).0 ≡ returned decided
      → decide_approval o approval_id again input' clock' later'
          (decide_approval o approval_id decision input clock later s).1
        ≡ (threw no_longer_pending, (decide_approval o approval_id decision input clock later s).1)
  decide_approval-once approval_id decision again input input' clock later clock' later' s decided
        e =
      let d = decide_approval-IsDecided o approval_id decision input clock later s decided e in
      let passes : (decided.id == approval_id) ≡ true =
        rw d.same_id (find_index-some _ s.approvals d.at d.found).1 in
      decide_again approval_id again input' clock' later' _ decided {i = d.at}
        (rw d.approvals (
          find_index-set (λ (a : ApprovalRequest). a.id == approval_id) s.approvals d.at decided
            d.found passes))
        (rw d.status (decided-not_pending decision))
