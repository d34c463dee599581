-- ===== src/Core/Sessions.antt =====
-- Signed session tokens that expire: packages/core/src/sessions.ts, with `isRole` of
-- packages/core/src/rbac.ts.
pub mod Payloads
pub mod Tokens
mod Tests
use Prim.Native.Char.{code}
use Prim.Native.String.{◌++◌}
use bek.Common.{
  ℕ, ◌+◌, ◌*◌, String, Bool, true, false, Option, none, some, leb, eqb, or_else, if◌then◌else◌,
  ◌==◌,
}
use bek.Common.Json.{Json, Fields}
use bek.Core.Rbac.{Role, role_name}

-- What the platform computes: base64url of UTF-8, HMAC-SHA256 in base64url, and JSON.
pub record SessionPlatform : Type 0 where
  pub base64url : String → String
  pub from_base64url : String → String
  pub sign : String → String → String
  pub stringify : Json → String
  pub parse : String → Option Json

-- The time of issue is not read back, and may be anything.
pub record SessionPayload : Type 0 where
  pub role : Role
  pub principal_id : String
  pub org_id : String
  pub csrf : String
  pub issued_at : Option Json
  pub expires_at : ℕ

pub record CreateSessionTokenInput : Type 0 where
  pub role : Role
  pub principal_id : String
  pub org_id : String
  pub csrf : String
  pub secret : String
  pub now_ms : ℕ
  pub ttl_ms : Option ℕ

pub data SessionRefusal : Type 0 where
  missing malformed invalid_signature unreadable incomplete expired : SessionRefusal

pub data VerifySessionResult : Type 0 where
  ok : SessionPayload → VerifySessionResult
  refused : SessionRefusal → VerifySessionResult

abbrev pub default_session_ttl_ms : ℕ
default_session_ttl_ms = 12 * 60 * 60 * 1000

-- The role of a text that passes `isRole`.
abbrev pub parse_role : String → Option Role
parse_role value =
    if value == "owner"
    then some Role.owner
    else if value == "admin"
    then some Role.admin
    else if value == "operator"
    then some Role.operator
    else if value == "approver"
    then some Role.approver
    else if value == "developer"
    then some Role.developer
    else if value == "viewer"
    then some Role.viewer
    else if value == "billing_admin"
    then some Role.billing_admin
    else none

abbrev pub expiry_of : CreateSessionTokenInput → ℕ
expiry_of input = input.now_ms + or_else input.ttl_ms default_session_ttl_ms

abbrev pub payload_json : CreateSessionTokenInput → Json
payload_json input = Json.obj (
    Fields.field "role" (Json.str (role_name input.role)) (
      Fields.field "principalId" (Json.str input.principal_id) (
        Fields.field "orgId" (Json.str input.org_id) (
          Fields.field "csrf" (Json.str input.csrf) (
            Fields.field "issuedAt" (Json.num input.now_ms)
              (Fields.field "expiresAt" (Json.num (expiry_of input)) Fields.end))))))

-- The last entry of an object under a name.
abbrev pub get_field : String → Fields → Option Json
get_field name Fields.end = none
get_field name (Fields.field key entry fields) =
    let rest = get_field name fields in
    elim rest [ some later ↦ some later | none ↦ if key == name then some entry else none ]

abbrev pub field_of : String → Json → Option Json
field_of name (Json.obj fields) = get_field name fields
field_of name _ = none

abbrev pub text_of : Option Json → Option String
text_of (some (Json.str s)) = some s
text_of _ = none

abbrev pub number_of : Option Json → Option ℕ
number_of (some (Json.num n)) = some n
number_of _ = none

-- `slice` on both sides of the last dot.
abbrev pub split_last : String → Option (String × String)
split_last String.[] = none
split_last (String.◌∷◌ c s) =
    let rest = split_last s in
    elim rest [
      | some (before, after) ↦ some (String.◌∷◌ c before, after)
      | none ↦ if eqb (code c) 46 then some ("", s) else none
    ]

infixl 20 ◌>>=◌
abbrev pub ◌>>=◌ {ℓ κ} : {A : Type ℓ} {B : Type κ} → Option A → (A → Option B) → Option B
none >>= f = none
some x >>= f = f x

-- A payload that lacks none of its fields.
unfoldable pub read_payload : Json → Option SessionPayload
read_payload j = do
  name ← text_of (field_of "role" j)
  role ← parse_role name
  principal_id ← text_of (field_of "principalId" j)
  org_id ← text_of (field_of "orgId" j)
  csrf ← text_of (field_of "csrf" j)
  expires_at ← number_of (field_of "expiresAt" j)
  some (record {
    role = role;
    principal_id = principal_id;
    org_id = org_id;
    csrf = csrf;
    issued_at = field_of "issuedAt" j;
    expires_at = expires_at;
  })

abbrev pub check_expiry : ℕ → Option SessionPayload → VerifySessionResult
check_expiry now_ms none = refused incomplete
check_expiry now_ms (some payload) =
    if leb payload.expires_at now_ms then refused expired else ok payload

abbrev pub check_payload : ℕ → Option Json → VerifySessionResult
check_payload now_ms none = refused unreadable
check_payload now_ms (some j) = check_expiry now_ms (read_payload j)

module _ (p : SessionPlatform) where
  unfoldable pub create_session_token : CreateSessionTokenInput → String
  create_session_token input =
      let body = p.base64url (p.stringify (payload_json input)) in
      body ++ ("." ++ p.sign body input.secret)

  abbrev pub verify_parts : String → ℕ → Option (String × String) → VerifySessionResult
  verify_parts secret now_ms none = refused malformed
  verify_parts secret now_ms (some (body, provided)) =
      if body == ""
      then refused malformed
      else if provided == p.sign body secret
      then check_payload now_ms (p.parse (p.from_base64url body))
      else refused invalid_signature

  unfoldable pub verify_session_token : Option String → String → ℕ → VerifySessionResult
  verify_session_token none secret now_ms = refused missing
  verify_session_token (some token) secret now_ms =
      if token == "" then refused missing else verify_parts secret now_ms (split_last token)
