-- ===== src/Core/Rbac/Requests.antt =====
-- The scope that a request requires: `requiredScopeForRequest` of packages/core/src/rbac.ts. A
-- method is an ASCII text. The two regular expressions are functions on texts.
use Prim.Native.Char.{code}
use text.Mathlib.Text.{starts_with, find?}
use bek.Common.{
  ℕ, ◌-◌, String, Bool, true, false, ◌&&◌, ◌||◌, Option, none, some, List, [], ◌∷◌, leb, eqb, any,
  is_some, if◌then◌else◌, ◌==◌,
}
use bek.Core.Rbac.{Role, Scope, role_has_scope}

abbrev pub upper_code : ℕ → ℕ
upper_code c = if leb 97 c && leb c 122 then c - 32 else c

-- `text.toUpperCase() === word`, for a word in capitals.
abbrev pub upper_is : String → String → Bool
upper_is String.[] String.[] = true
upper_is String.[] (String.◌∷◌ d word) = false
upper_is (String.◌∷◌ c text) String.[] = false
upper_is (String.◌∷◌ c text) (String.◌∷◌ d word) =
    eqb (upper_code (code c)) (code d) && upper_is text word

unfoldable pub is_write : String → Bool
is_write method =
    upper_is method "POST"
    || upper_is method "PATCH"
    || upper_is method "PUT"
    || upper_is method "DELETE"

-- What is left of a text after a prefix, where it begins with it.
abbrev pub without_prefix : String → String → Option String
without_prefix String.[] text = some text
without_prefix (String.◌∷◌ c prefix) String.[] = none
without_prefix (String.◌∷◌ c prefix) (String.◌∷◌ d text) =
    let rest = without_prefix prefix text in if eqb (code c) (code d) then rest else none

-- A text from its first slash on.
abbrev pub from_slash : String → Option String
from_slash String.[] = none
from_slash (String.◌∷◌ c text) =
    let rest = from_slash text in if eqb (code c) 47 then some (String.◌∷◌ c text) else rest

-- What is left of a text after `[^/]+`, where a slash follows.
abbrev pub after_segment : String → Option String
after_segment String.[] = none
after_segment (String.◌∷◌ c text) = if eqb (code c) 47 then none else from_slash text

-- The regular expression of a prefix, one segment, and one of the endings.
unfoldable pub is_action : String → List String → String → Bool
is_action prefix endings path = elim (without_prefix prefix path) [
  | none ↦ false
  | some rest ↦ elim (after_segment rest) [
    | none ↦ false
    | some ending ↦ any (λ e. ending == e) endings
  ]
]

unfoldable pub is_approval_decision : String → Bool
unfolding is_action
is_approval_decision path = is_action "/api/approvals/" ("/approve" ∷ "/deny" ∷ []) path

unfoldable pub is_run_cancellation : String → Bool
unfolding is_action
is_run_cancellation path = is_action "/api/runs/" ("/cancel" ∷ []) path

-- The scope of a write to the connectors or the configuration.
unfoldable pub scope_of_config : String → Scope
scope_of_config path =
    if starts_with path "/api/connectors/mcp"
    then Scope.mcp_manage
    else if starts_with path "/api/connectors"
    then Scope.connectors_manage
    else if starts_with path "/api/slack"
    then Scope.slack_manage
    else if starts_with path "/api/github"
    then Scope.github_manage
    else if starts_with path "/api/channels"
    then Scope.channels_manage
    else if starts_with path "/api/access-bundles"
    then Scope.access_manage
    else if starts_with path "/api/model-policies"
    then Scope.models_manage
    else if starts_with path "/api/runtime-profiles"
    then Scope.runtime_manage
    else Scope.settings_manage

unfoldable pub is_operation : String → Bool
is_operation path =
    starts_with path "/api/worker/"
    || starts_with path "/api/outbound/"
    || is_some (find? path "/dead-letter")

unfoldable pub scope_of_write : String → Scope
scope_of_write path =
    if is_approval_decision path
    then Scope.writes_approve
    else if is_run_cancellation path
    then Scope.runs_cancel
    else if path == "/api/runs"
    then Scope.runs_create
    else if is_operation path
    then Scope.worker_operate
    else scope_of_config path

unfoldable pub required_scope_for_request : String → String → Option Scope
required_scope_for_request method path =
    if starts_with path "/api/auth/"
    then none
    else if starts_with path "/api/audit-events/export"
    then some Scope.audit_export
    else if is_write method
    then some (scope_of_write path)
    else none

-- The guard of apps/api/src/app.ts: a request that requires a scope needs a role that has it.
unfoldable pub may : Role → String → String → Bool
may role method path = elim (required_scope_for_request method path) [
  | none ↦ true
  | some scope ↦ role_has_scope role scope
]
