-- ===== src/Core/Rbac/Roles.antt =====
-- What each role may write: packages/core/src/rbac.ts.
use Prim.Native.Char.{Char, code}
use Prim.Native.String
use Prim.Native.String.append
use text.Mathlib.Text.{starts_with}
use text.Mathlib.TextEquality.{Char-path}
use bek.Common.{
  String, ◌≡◌, ◌≢◌, refl, sym, ap, ◌∙◌, ◌⊎◌, inl, inr, Bool, true, false, Bool-cases, Option-cases,
  some, [], ◌∷◌, ◌==◌, eq_iff, eqb, any, arith, if◌then◌else◌,
}
use bek.Core.Rbac.{Role, Scope, scopes_for_role, role_has_scope}
use bek.Core.Rbac.Requests.{
  upper_is, is_write, without_prefix, from_slash, after_segment, is_action, is_approval_decision,
  scope_of_config, scope_of_write, required_scope_for_request, may,
}

-- A path that decides one approval.
abbrev pub IsDecision : String → Type 0
IsDecision path =
    (id ending : String) × (id ≢ "")
    × (path ≡ String.◌++◌ "/api/approvals/" (String.◌++◌ id ending))
    × ((ending ≡ "/approve") ⊎ (ending ≡ "/deny"))

without_prefix-split :
    (prefix text rest : String)
    → without_prefix prefix text ≡ some rest
    → text ≡ String.◌++◌ prefix rest
without_prefix-split String.[] text rest h = ground (arith, append.nil rest)
without_prefix-split (String.◌∷◌ c prefix) String.[] rest h = absurd (ground arith)
without_prefix-split (String.◌∷◌ c prefix) (String.◌∷◌ d text) rest h =
    elim (Bool-cases (eqb (code c) (code d))) [
      | inr other ↦ absurd (ground arith)
      | inl same ↦
          let e : d ≡ c = Char-path d c (ground arith) in
          rw (e, without_prefix-split prefix text rest (rw same at h))
            (sym (append.cons c prefix rest))
    ]

from_slash-split :
    (text rest : String)
    → from_slash text ≡ some rest
    → (segment : String) × (text ≡ String.◌++◌ segment rest)
from_slash-split String.[] rest h = absurd (ground arith)
from_slash-split (String.◌∷◌ c text) rest h = elim (Bool-cases (eqb (code c) 47)) [
  | inl slash ↦ ("", ground (arith, append.nil rest))
  | inr other ↦
      let (segment, e) = from_slash-split text rest (rw other at h) in
      (String.◌∷◌ c segment, ap (λ t. String.◌∷◌ c t) e ∙ sym (append.cons c segment rest))
]

is_empty : String → Bool
is_empty String.[] = true
is_empty (String.◌∷◌ c s) = false

cons_ne : (c : Char) (s : String) → String.◌∷◌ c s ≢ ""
unfolding is_empty
cons_ne c s e = let same : false ≡ true = ap is_empty e in ground (arith, same)

after_segment-split :
    (text rest : String)
    → after_segment text ≡ some rest
    → (segment : String) × (segment ≢ "") × (text ≡ String.◌++◌ segment rest)
after_segment-split String.[] rest h = absurd (ground arith)
after_segment-split (String.◌∷◌ c text) rest h = elim (Bool-cases (eqb (code c) 47)) [
  | inl slash ↦ absurd (ground arith)
  | inr other ↦
      let (segment, e) = from_slash-split text rest (rw other at h) in
      (
        String.◌∷◌ c segment,
        cons_ne c segment,
        ap (λ t. String.◌∷◌ c t) e ∙ sym (append.cons c segment rest),
      )
]

endings :
    (ending : String)
    → any (λ e. ending == e) ("/approve" ∷ "/deny" ∷ []) ≡ true
    → (ending ≡ "/approve") ⊎ (ending ≡ "/deny")
unfolding any
endings ending h = ground (arith, eq_iff ending "/approve", eq_iff ending "/deny")

is_approval_decision-IsDecision :
    (path : String) → is_approval_decision path ≡ true → IsDecision path
unfolding is_approval_decision is_action any
is_approval_decision-IsDecision path h =
    elim (Option-cases (without_prefix "/api/approvals/" path)) [
      | inl out ↦ absurd (ground (arith, out))
      | inr (rest, begins) ↦ elim (Option-cases (after_segment rest)) [
        | inl out ↦ absurd (ground (arith, begins, out))
        | inr (ending, splits) ↦
            let (id, some_id, e) = after_segment-split rest ending splits in
            (
              id,
              ending,
              some_id,
              without_prefix-split "/api/approvals/" path rest begins
                  ∙ ap (λ t. String.◌++◌ "/api/approvals/" t) e,
              endings ending (rw (begins, splits, is_approval_decision, is_action) at h),
            )
      ]
    ]

scope_of_config-manages :
    (path : String) (role : Role)
    → role_has_scope role (scope_of_config path) ≡ true
    → (role ≡ Role.owner) ⊎ (role ≡ Role.admin)
unfolding scope_of_config role_has_scope scopes_for_role any
scope_of_config-manages path role h = ground arith

-- The scope of a write that is no session's.
abbrev write_scope : String → Scope
write_scope path =
    if starts_with path "/api/audit-events/export" then Scope.audit_export else scope_of_write path

required_scope-write :
    (method path : String)
    → is_write method ≡ true
    → starts_with path "/api/auth/" ≡ false
    → required_scope_for_request method path ≡ some (write_scope path)
unfolding required_scope_for_request
required_scope-write method path write other = ground arith

may-write :
    (role : Role) (method path : String)
    → is_write method ≡ true
    → starts_with path "/api/auth/" ≡ false
    → may role method path ≡ role_has_scope role (write_scope path)
unfolding may
may-write role method path write other = rw (required_scope-write method path write other, may) refl

viewer_writes : (path : String) → role_has_scope Role.viewer (write_scope path) ≡ false
unfolding scope_of_write role_has_scope scopes_for_role any
viewer_writes path = ground (arith, scope_of_config-manages path Role.viewer)

billing_admin_writes :
    (path : String) → role_has_scope Role.billing_admin (write_scope path) ≡ false
unfolding scope_of_write role_has_scope scopes_for_role any
billing_admin_writes path = ground (arith, scope_of_config-manages path Role.billing_admin)

developer_writes :
    (path : String) → role_has_scope Role.developer (write_scope path) ≡ true → path ≡ "/api/runs"
unfolding scope_of_write role_has_scope scopes_for_role any
developer_writes path h =
    ground (arith, eq_iff path "/api/runs", scope_of_config-manages path Role.developer)

approver_writes :
    (path : String)
    → role_has_scope Role.approver (write_scope path) ≡ true
    → is_approval_decision path ≡ true
unfolding scope_of_write role_has_scope scopes_for_role any
approver_writes path h = ground (arith, scope_of_config-manages path Role.approver)

-- The method is one that writes, in whatever case it is written.
abbrev pub IsWriting : String → Type 0
IsWriting method =
    (upper_is method "POST" ≡ true)
    ⊎ (upper_is method "PATCH" ≡ true)
    ⊎ (upper_is method "PUT" ≡ true)
    ⊎ (upper_is method "DELETE" ≡ true)

is_write_of : (method : String) → IsWriting method → is_write method ≡ true
unfolding is_write
is_write_of method writing = ground (arith, writing)

-- Outside sessions, a viewer and a billing admin may make no request by POST, PATCH, PUT or DELETE, a
-- developer may by these only create runs, and an approver may only approve or deny one approval.
pub may_write :
    (method path : String)
    → IsWriting method
    → starts_with path "/api/auth/" ≡ false
    → (may Role.viewer method path ≡ false)
      × (may Role.billing_admin method path ≡ false)
      × (may Role.developer method path ≡ true → path ≡ "/api/runs")
      × (may Role.approver method path ≡ true → IsDecision path)
may_write method path writing other =
    let write = is_write_of method writing in
    (
      may-write Role.viewer method path write other ∙ viewer_writes path,
      may-write Role.billing_admin method path write other ∙ billing_admin_writes path,
      λ h. developer_writes path (sym (may-write Role.developer method path write other) ∙ h),
      λ h.
          is_approval_decision-IsDecision path
            (approver_writes path (sym (may-write Role.approver method path write other) ∙ h)),
    )
