-- ===== src/Core/Store/Decisions.antt =====
-- Who may decide an approval, and that it is decided once: `decideApproval` of
-- packages/core/src/store.ts.
use bek.Common.{
  ℕ, ◌<◌, ◌≡◌, ◌≢◌, refl, ap, ◌∙◌, subst, ◌⊎◌, inl, inr, Bool-cases, true, false, Option,
  Option-cases, none, some, get_elem?, set, find_index, find_index-some, or_else, leb, ◌&&◌, ◌==◌,
  eq_iff, String, arith,
}
use bek.Worker.Types.{ApprovalStatus, ApprovalRequest, RiskLevel}
use bek.Core.Store.Types.{PrincipalKind, Principal, Store}
use bek.Core.Store.Approvals.{
  RunAdvanceMode, ApprovalDecision, ApprovalDecisionInput, ApprovalError, Decided, returned, threw,
  decision_status, is_pending, is_human, is_guarded, is_actor, StoreOptions, put_approval,
  write_decision, decide_by_actor, decide_found, decide_approval,
}

-- The principal may decide the approval.
pub record MayDecide (s : Store) (approval : ApprovalRequest) (principal_id : String) : Type 0 where
  pub at : ℕ
  pub actor : Principal
  pub known : get_elem? s.principals at ≡ some actor
  pub named : actor.id ≡ principal_id
  pub same_org : actor.org_id ≡ approval.org_id
  pub human : actor.kind ≡ PrincipalKind.human
  pub not_own :
      (approval.risk ≡ RiskLevel.write_external) ⊎ (approval.risk ≡ RiskLevel.privileged)
      → actor.id ≢ approval.requested_by_principal_id

-- An approval was decided, and how.
pub record IsDecided (s s' : Store) (approval_id : String) (decision : ApprovalDecision)
    (input : ApprovalDecisionInput) (now : ℕ) (decided : ApprovalRequest) : Type 0 where
  pub at : ℕ
  pub before : ApprovalRequest
  pub found :
      find_index (λ (a : ApprovalRequest). a.id == approval_id) s.approvals ≡ some (at, before)
  pub pending : before.status ≡ ApprovalStatus.pending
  pub same_payload : before.payload_hash ≡ input.payload_hash
  pub live : now < before.expires_at
  pub by_actor : MayDecide s before input.principal_id
  pub status : decided.status ≡ decision_status decision
  pub decider : decided.decided_by_principal_id ≡ some input.principal_id
  pub same_id : decided.id ≡ before.id
  pub approvals : s'.approvals ≡ set s.approvals at decided

-- What is written is what is returned.
abbrev Writes : ℕ → ApprovalRequest → ApprovalDecision → String → Store → Decided × Store → Type 0
Writes i approval decision actor_id s x =
    (decided : ApprovalRequest)
    → x.0 ≡ returned decided
    → (decided.status ≡ decision_status decision)
      × (decided.decided_by_principal_id ≡ some actor_id)
      × (decided.id ≡ approval.id)
      × (x.1.approvals ≡ set s.approvals i decided)

returned-eq : {a b : ApprovalRequest} → returned a ≡ returned b → a ≡ b
returned-eq e = cc

threw-not_returned : {e : ApprovalError} {a : ApprovalRequest} → threw e ≢ returned a
threw-not_returned e = cc

is_pending-eq : (st : ApprovalStatus) → is_pending st ≡ true → st ≡ ApprovalStatus.pending
is_pending-eq st h = ground arith

is_human-eq : (k : PrincipalKind) → is_human k ≡ true → k ≡ PrincipalKind.human
is_human-eq k h = ground arith

-- Where the guard against self-approval lets a principal pass, who is not the requester of an
-- external write or of a privileged action.
own_of :
    (actor : Principal) (approval : ApprovalRequest)
    → (actor.id == approval.requested_by_principal_id && is_guarded approval.risk) ≡ false
    → (approval.risk ≡ RiskLevel.write_external) ⊎ (approval.risk ≡ RiskLevel.privileged)
    → actor.id ≢ approval.requested_by_principal_id
own_of actor approval fine (inl write) same =
    ground (arith, fine, write, eq_iff actor.id approval.requested_by_principal_id)
own_of actor approval fine (inr privileged) same =
    ground (arith, fine, privileged, eq_iff actor.id approval.requested_by_principal_id)

module _ (o : StoreOptions) where
  write_decision-Writes :
      (i : ℕ) (approval : ApprovalRequest) (decision : ApprovalDecision) (actor_id : String)
      (mode : Option RunAdvanceMode) (now later : ℕ) (s : Store)
      → Writes i approval decision actor_id s
          (write_decision o i approval decision actor_id mode now later s)
  unfolding write_decision put_approval
  write_decision-Writes i approval decision actor_id mode now later s decided e =
      subst
        (λ d.
          (d.status ≡ decision_status decision)
          × (d.decided_by_principal_id ≡ some actor_id)
          × (d.id ≡ approval.id)
          × ((write_decision o i approval decision actor_id mode now later s).1.approvals
              ≡ set s.approvals i d))
        (returned-eq e) (refl, refl, refl, refl)

  decide_by_actor-lem :
      (found : Option (ℕ × Principal)) (i : ℕ) (approval : ApprovalRequest)
      (decision : ApprovalDecision) (principal_id : String) (mode : Option RunAdvanceMode)
      (now later : ℕ) (s : Store) (decided : ApprovalRequest)
      → find_index (is_actor principal_id approval.org_id) s.principals ≡ found
      → (decide_by_actor o found i approval decision mode now later s).0 ≡ returned decided
      → MayDecide s approval principal_id
        × ((decided.status ≡ decision_status decision)
            × (decided.decided_by_principal_id ≡ some principal_id)
            × (decided.id ≡ approval.id)
            × ((decide_by_actor o found i approval decision mode now later s).1.approvals
                ≡ set s.approvals i decided))
  unfolding decide_by_actor
  decide_by_actor-lem none i approval decision principal_id mode now later s decided f e =
      absurd (threw-not_returned e)
  decide_by_actor-lem (some (k, actor)) i approval decision principal_id mode now later s decided f
        e =
      elim (Bool-cases (is_human actor.kind)) [
        | inr other ↦ absurd (threw-not_returned (rw other at e))
        | inl human ↦
            elim (Bool-cases
              (actor.id == approval.requested_by_principal_id && is_guarded approval.risk)) [
                | inl own ↦ absurd (threw-not_returned (rw (human, own) at e))
                | inr fine ↦
                    let (known, fits) =
                      find_index-some (is_actor principal_id approval.org_id) s.principals k f in
                    let named : actor.id ≡ principal_id =
                      ground (arith, eq_iff actor.id principal_id) in
                    let (status, by, id, approvals) =
                      write_decision-Writes i approval decision actor.id mode now later s decided
                        (rw (human, fine) at e) in
                    (
                      record {
                        at = k;
                        actor = actor;
                        known = known;
                        named = named;
                        same_org = ground (arith, eq_iff actor.org_id approval.org_id);
                        human = is_human-eq actor.kind human;
                        not_own = own_of actor approval fine;
                      },
                      rw (human, fine) (status, by ∙ ap (λ n. some n) named, id, approvals),
                    )
              ]
      ]

  decide_found-IsDecided :
      (approval_id : String) (i : ℕ) (approval : ApprovalRequest) (decision : ApprovalDecision)
      (input : ApprovalDecisionInput) (now later : ℕ) (s : Store) (decided : ApprovalRequest)
      → find_index (λ (a : ApprovalRequest). a.id == approval_id) s.approvals ≡ some (i, approval)
      → (decide_found o i approval decision input now later s).0 ≡ returned decided
      → IsDecided s
          (decide_found o i approval decision input now later s).1
          approval_id
          decision
          input
          now
          decided
  unfolding decide_found
  decide_found-IsDecided approval_id i approval decision input now later s decided f e =
      elim (Bool-cases (is_pending approval.status)) [
        | inr over ↦ absurd (threw-not_returned (rw over at e))
        | inl pending ↦ elim (Bool-cases (approval.payload_hash == input.payload_hash)) [
          | inr differs ↦ absurd (threw-not_returned (rw (pending, differs) at e))
          | inl agrees ↦ elim (Bool-cases (leb approval.expires_at now)) [
            | inl late ↦ absurd (threw-not_returned (rw (pending, agrees, late) at e))
            | inr live ↦
                let (may, written) =
                  decide_by_actor-lem _ i approval decision input.principal_id input.advance_mode
                    now later s decided refl (rw (pending, agrees, live) at e) in
                let (status, by, id, approvals) = written in
                record {
                  at = i;
                  before = approval;
                  found = f;
                  pending = is_pending-eq approval.status pending;
                  same_payload = (eq_iff _ _).0 agrees;
                  live = ground (arith, live);
                  by_actor = may;
                  status = status;
                  decider = by;
                  same_id = id;
                  approvals = rw (pending, agrees, live) approvals;
                }
          ]
        ]
      ]

  -- An approval is decided only while it is pending and has not expired, for the payload hash
  -- that it was asked for, and by a human principal of its organisation, who is not the requester
  -- if its risk is an external write or privileged. It then has the status of the decision and
  -- names who decided it, and no other approval is changed.
  pub decide_approval-IsDecided :
      (approval_id : String) (decision : ApprovalDecision) (input : ApprovalDecisionInput)
      (clock later : ℕ) (s : Store) (decided : ApprovalRequest)
      → (decide_approval o approval_id decision input clock later s).0 ≡ returned decided
      → IsDecided s
          (decide_approval o approval_id decision input clock later s).1
          approval_id
          decision
          input
          (or_else input.now clock)
          decided
  unfolding decide_approval
  decide_approval-IsDecided approval_id decision input clock later s decided e =
      elim (Option-cases (find_index (λ (a : ApprovalRequest). a.id == approval_id) s.approvals)) [
        | inl out ↦ absurd (threw-not_returned (rw (out, decide_approval) at e))
        | inr ((i, approval), f) ↦
            rw (f, decide_approval)
              (decide_found-IsDecided approval_id i approval decision input _ later s decided f
                (rw (f, decide_approval) at e))
      ]
