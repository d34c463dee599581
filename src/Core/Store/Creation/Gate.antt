-- ===== src/Core/Store/Creation/Gate.antt =====
-- The gate of `createRun` in packages/core/src/store.ts: from the decision of the policy to the
-- run.
use bek.Common.{
  ℕ, suc, ◌≡◌, refl, sym, ap, ◌∙◌, ◌⊎◌, inl, inr, Bool, true, false, not, ◌&&◌, ◌||◌, Option, none,
  some, List, or_else, Bool-cases, arith,
}
use bek.Core.Types.{CapabilityKind, Decision, AccessBundle}
use bek.Core.Policy.{
  PolicyRequest, PolicyDecision, capability_name, is_deny, is_ask, evaluate_policy,
}
use bek.Core.Policy.Verdicts.{IsUngranted, IsDenied, IsAllowed, evaluate_policy_lem}
use bek.Core.Store.Types.{RunStatus, Run}
use bek.Core.Store.Approvals.{RunAdvanceMode, StoreOptions}
use bek.Core.Store.Payloads.{PayloadPlatform, hash_payload, create_approval_request}
use bek.Core.Store.Creation.{log_event, refuse_run, defer_run, hold_run, start_run, gate_run}
use bek.Core.Store.Creation.Inputs.{CreateRunInput, Progress, approval_payload_of, is_inline}
use bek.Worker.Types.{ApprovalRequest}
use bek.Core.Store.Creation.Outcomes.{IsGated, IsStarted, mode_of, policy_request}

deny_of : (d : Decision) → is_deny d ≡ true → d ≡ Decision.deny
deny_of d h = ground arith

IsDenied-is_deny :
    (bundles : List AccessBundle) (request : PolicyRequest)
    → is_deny (evaluate_policy bundles request).decision ≡ true
    → IsUngranted bundles request (evaluate_policy bundles request)
      ⊎ IsDenied bundles request (evaluate_policy bundles request)
IsDenied-is_deny bundles request denied = elim (evaluate_policy_lem bundles request) [
  | inl ungranted ↦ inl ungranted
  | inr (inl forbidden) ↦ inr forbidden
  | inr (inr a) ↦
      let none_denies = a.none_denies a.grant a.granted a.applies in
      let decides = a.decides in
      absurd (none_denies (deny_of _ (ap is_deny (sym decides) ∙ denied)))
]

IsAllowed-is_deny :
    (bundles : List AccessBundle) (request : PolicyRequest)
    → is_deny (evaluate_policy bundles request).decision ≡ false
    → IsAllowed bundles request (evaluate_policy bundles request)
IsAllowed-is_deny bundles request allowed = elim (evaluate_policy_lem bundles request) [
  | inl ungranted ↦ let denies = ungranted.denies in absurd (ground arith)
  | inr (inl forbidden) ↦ let denies = forbidden.denies in absurd (ground arith)
  | inr (inr a) ↦ a
]

deferred_parts :
    (d : Option Bool) (m : Option RunAdvanceMode)
    → (or_else d false && not (is_inline (or_else m RunAdvanceMode.inline_stub))) ≡ true
    → (d ≡ some true) × (m ≡ some RunAdvanceMode.worker)
deferred_parts (some true) (some RunAdvanceMode.worker) h = (refl, refl)
deferred_parts (some true) (some RunAdvanceMode.inline_stub) h = absurd (ground arith)
deferred_parts (some true) none h = absurd (ground arith)
deferred_parts (some false) m h = absurd (ground arith)
deferred_parts none m h = absurd (ground arith)

mode_cases : (m : RunAdvanceMode) → (m ≡ RunAdvanceMode.worker) ⊎ (m ≡ RunAdvanceMode.inline_stub)
mode_cases RunAdvanceMode.worker = inl refl
mode_cases RunAdvanceMode.inline_stub = inr refl

allow_of :
    (d : Decision) (requires : Bool)
    → is_deny d ≡ false
    → (requires || is_ask d) ≡ false
    → (d ≡ Decision.allow) × (requires ≡ false)
allow_of d requires h k = (ground arith, ground arith)

-- What a grant allows without an approval is started.
IsAllowed-IsStarted :
    {bundles : List AccessBundle} {request : PolicyRequest} {input : CreateRunInput} {run : Run}
    {approvals : List ApprovalRequest}
    → is_deny (evaluate_policy bundles request).decision ≡ false
    → (evaluate_policy bundles request).requires_approval ≡ false
    → ((mode_of input ≡ RunAdvanceMode.worker) × (run.status ≡ RunStatus.queued))
      ⊎ ((mode_of input ≡ RunAdvanceMode.inline_stub) × (run.status ≡ RunStatus.completed))
    → IsStarted bundles request input run approvals approvals
IsAllowed-IsStarted {bundles} {request} allowed unguarded started =
    let a = IsAllowed-is_deny bundles request allowed in
    let (allows, free) =
      allow_of a.grant.decision a.grant.requires_approval (ap is_deny (sym a.decides) ∙ allowed)
        (sym a.approval ∙ unguarded) in
    record {
      grant = a.grant;
      granted = a.granted;
      applies = a.applies;
      allows = allows;
      unguarded = free;
      none_denies = a.none_denies;
      unasked = refl;
      started = started;
    }

module _ (o : StoreOptions) (p : PayloadPlatform) (clock : ℕ → ℕ) where
  module _ (bundles : List AccessBundle) (input : CreateRunInput)
      (capability : CapabilityKind) where
    abbrev request : PolicyRequest
    request = policy_request input capability

    abbrev decision : PolicyDecision
    decision = evaluate_policy bundles request

    abbrev gated : Progress → Progress
    gated x = gate_run o p clock input capability (mode_of input) decision x

    -- The gate leaves a run that is allowed but needs an approval to a worker, or holds it.
    gate_run-guarded :
        (x : Progress)
        → x.run.status ≡ RunStatus.queued
        → record x.run { status = RunStatus.queued; updated_at = x.run.created_at } ≡ x.run
        → (now : ℕ) → is_deny decision.decision ≡ false
        → decision.requires_approval ≡ true
        → IsGated p bundles request input
            (record (gated x).run { updated_at = now })
            x.store.approvals
            (gated x).store.approvals
    unfolding gate_run hold_run defer_run create_approval_request log_event
    gate_run-guarded x queued fresh now allowed guarded =
        let a = IsAllowed-is_deny bundles request allowed in
        elim (Bool-cases (or_else input.defer_approval false && not (is_inline (mode_of input)))) [
          | inl deferred ↦
              let (d, m) = deferred_parts input.defer_approval input.advance_mode deferred in
              rw (allowed, guarded, deferred)
                (inr (
                  inl (record {
                    allowed = a;
                    guarded = guarded;
                    deferred = d;
                    by_worker = m;
                    queued = queued;
                    unasked = refl;
                  })))
          | inr at_once ↦
              rw (allowed, guarded, at_once)
                (inr (
                  inr (
                    inl (record {
                      allowed = a;
                      guarded = guarded;
                      awaiting = refl;
                      approval =
                          create_approval_request o p x.store.org_id x.run.id
                            x.run.requester_principal_id (capability_name capability)
                            (approval_payload_of input capability x.run) decision.risk
                            (clock (suc x.readings)) (suc x.store.next_id);
                      asked = refl;
                      pending = refl;
                      of_run = refl;
                      by_requester = refl;
                      action = refl;
                      risk = refl;
                      undecided = refl;
                      expiry = refl;
                      payload =
                          ap (λ r. hash_payload p (approval_payload_of input capability r))
                            (sym fresh);
                    }))))
        ]

    pub gate_run-IsGated :
        (x : Progress)
        → x.run.status ≡ RunStatus.queued
        → record x.run { status = RunStatus.queued; updated_at = x.run.created_at } ≡ x.run
        → (now : ℕ)
        → IsGated p bundles request input
            (record (gated x).run { updated_at = now })
            x.store.approvals
            (gated x).store.approvals
    unfolding gate_run refuse_run start_run log_event
    gate_run-IsGated x queued fresh now = elim (Bool-cases (is_deny decision.decision)) [
      | inl denied ↦ rw denied (
          inl (record {
            forbidden = IsDenied-is_deny bundles request denied;
            failed = refl;
            unasked = refl;
          }))
      | inr allowed ↦ elim (Bool-cases decision.requires_approval) [
        | inl guarded ↦ gate_run-guarded x queued fresh now allowed guarded
        | inr unguarded ↦ elim (mode_cases (mode_of input)) [
          | inl worker ↦
              rw (allowed, unguarded, worker)
                (inr (inr (inr (IsAllowed-IsStarted allowed unguarded (inl (worker, queued))))))
          | inr inline ↦
              rw (allowed, unguarded, inline)
                (inr (inr (inr (IsAllowed-IsStarted allowed unguarded (inr (inline, refl))))))
        ]
      ]
    ]
