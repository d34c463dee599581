-- ===== src/Core/Rbac.antt =====
-- Roles, scopes and the scope that a request requires: packages/core/src/rbac.ts.
pub mod Requests
pub mod Roles
use bek.Common.{
  ℕ, ◌-◌, String, Bool, true, false, ◌&&◌, ◌||◌, Option, none, some, List, [], ◌∷◌, ◌++◌, leb, eqb,
  any, if◌then◌else◌, ◌==◌, concat,
}

pub data Role : Type 0 where
  owner admin operator approver developer viewer billing_admin : Role

pub data Scope : Type 0 where
  slack_manage github_manage models_manage mcp_manage credentials_manage connectors_manage
        channels_manage access_manage runtime_manage settings_manage worker_operate writes_approve
        runs_create runs_cancel audit_view audit_export billing_manage :
      Scope

abbrev pub config_scopes : List Scope
config_scopes =
    Scope.slack_manage ∷ Scope.github_manage ∷ Scope.models_manage ∷ Scope.mcp_manage
    ∷ Scope.credentials_manage ∷ Scope.connectors_manage ∷ Scope.channels_manage
    ∷ Scope.access_manage ∷ Scope.runtime_manage ∷ Scope.settings_manage ∷ []

abbrev pub all_scopes : List Scope
all_scopes =
    config_scopes
    ++ (Scope.worker_operate ∷ Scope.writes_approve ∷ Scope.runs_create ∷ Scope.runs_cancel
        ∷ Scope.audit_view ∷ Scope.audit_export ∷ Scope.billing_manage ∷ [])

unfoldable pub scopes_for_role : Role → List Scope
scopes_for_role Role.owner = all_scopes
scopes_for_role Role.admin =
    config_scopes
    ++ (Scope.worker_operate ∷ Scope.writes_approve ∷ Scope.runs_create ∷ Scope.runs_cancel
        ∷ Scope.audit_view ∷ Scope.audit_export ∷ [])
scopes_for_role Role.operator =
    Scope.worker_operate ∷ Scope.writes_approve ∷ Scope.runs_create ∷ Scope.runs_cancel
    ∷ Scope.audit_view ∷ []
scopes_for_role Role.approver = Scope.writes_approve ∷ Scope.audit_view ∷ []
scopes_for_role Role.developer = Scope.runs_create ∷ Scope.audit_view ∷ []
scopes_for_role Role.viewer = Scope.audit_view ∷ []
scopes_for_role Role.billing_admin = Scope.billing_manage ∷ Scope.audit_view ∷ []

abbrev pub role_name : Role → String
role_name Role.owner = "owner"
role_name Role.admin = "admin"
role_name Role.operator = "operator"
role_name Role.approver = "approver"
role_name Role.developer = "developer"
role_name Role.viewer = "viewer"
role_name Role.billing_admin = "billing_admin"

abbrev pub scope_name : Scope → String
scope_name Scope.slack_manage = "slack.manage"
scope_name Scope.github_manage = "github.manage"
scope_name Scope.models_manage = "models.manage"
scope_name Scope.mcp_manage = "mcp.manage"
scope_name Scope.credentials_manage = "credentials.manage"
scope_name Scope.connectors_manage = "connectors.manage"
scope_name Scope.channels_manage = "channels.manage"
scope_name Scope.access_manage = "access.manage"
scope_name Scope.runtime_manage = "runtime.manage"
scope_name Scope.settings_manage = "settings.manage"
scope_name Scope.worker_operate = "worker.operate"
scope_name Scope.writes_approve = "writes.approve"
scope_name Scope.runs_create = "runs.create"
scope_name Scope.runs_cancel = "runs.cancel"
scope_name Scope.audit_view = "audit.view"
scope_name Scope.audit_export = "audit.export"
scope_name Scope.billing_manage = "billing.manage"

-- A scope by its position in the type.
abbrev pub scope_index : Scope → ℕ
scope_index Scope.slack_manage = 0
scope_index Scope.github_manage = 1
scope_index Scope.models_manage = 2
scope_index Scope.mcp_manage = 3
scope_index Scope.credentials_manage = 4
scope_index Scope.connectors_manage = 5
scope_index Scope.channels_manage = 6
scope_index Scope.access_manage = 7
scope_index Scope.runtime_manage = 8
scope_index Scope.settings_manage = 9
scope_index Scope.worker_operate = 10
scope_index Scope.writes_approve = 11
scope_index Scope.runs_create = 12
scope_index Scope.runs_cancel = 13
scope_index Scope.audit_view = 14
scope_index Scope.audit_export = 15
scope_index Scope.billing_manage = 16

unfoldable pub role_has_scope : Role → Scope → Bool
unfolding scopes_for_role
role_has_scope role scope =
    any (λ s. eqb (scope_index s) (scope_index scope)) (scopes_for_role role)

pub record AuthorizeDecision : Type 0 where
  pub allowed : Bool
  pub role : Role
  pub scope : Scope
  pub reason : String

unfoldable pub authorize_scope : Role → Scope → AuthorizeDecision
authorize_scope role scope = record {
  allowed = role_has_scope role scope;
  role = role;
  scope = scope;
  reason =
      if role_has_scope role scope
      then concat ("Role " ∷ role_name role ∷ " has scope " ∷ scope_name scope ∷ "." ∷ [])
      else concat
          ("Role " ∷ role_name role ∷ " is missing required scope " ∷ scope_name scope ∷ "." ∷ []);
}
