-- ===== src/Core/Sessions/Payloads.antt =====
-- The payload that is read from a session token: packages/core/src/sessions.ts.
use bek.Common.{ℕ, ◌≡◌, refl, ap, ◌∙◌, subst, String, Option, none, some, eq_iff, arith}
use bek.Common.Json.{Json}
use bek.Core.Rbac.{Role, role_name}
use bek.Core.Sessions.{
  SessionPayload, field_of, text_of, number_of, ◌>>=◌, parse_role, read_payload,
}

-- The JSON value has every field of the payload that the code asks for, each of its type, and its role
-- is a role's name. The time of issue is taken as it stands, or is missing.
pub record IsComplete (json : Json) (payload : SessionPayload) : Type 0 where
  pub role : field_of "role" json ≡ some (Json.str (role_name payload.role))
  pub principal_id : field_of "principalId" json ≡ some (Json.str payload.principal_id)
  pub org_id : field_of "orgId" json ≡ some (Json.str payload.org_id)
  pub csrf : field_of "csrf" json ≡ some (Json.str payload.csrf)
  pub issued_at : field_of "issuedAt" json ≡ payload.issued_at
  pub expires_at : field_of "expiresAt" json ≡ some (Json.num payload.expires_at)

some-inj : {A : Type 0} {a b : A} → some a ≡ some b → a ≡ b
some-inj e = cc

>>=-some :
    {A B : Type 0} (x : Option A) (f : A → Option B) {b : B}
    → (x >>= f) ≡ some b
    → (a : A) × (x ≡ some a) × (f a ≡ some b)
>>=-some none f e = absurd (ground arith)
>>=-some (some a) f e = (a, refl, e)

text_of-some : (j : Option Json) {s : String} → text_of j ≡ some s → j ≡ some (Json.str s)
text_of-some none e = absurd (ground arith)
text_of-some (some Json.null) e = absurd (ground arith)
text_of-some (some (Json.bool b)) e = absurd (ground arith)
text_of-some (some (Json.num n)) e = absurd (ground arith)
text_of-some (some (Json.str s)) e = ground (arith, e)
text_of-some (some (Json.arr items)) e = absurd (ground arith)
text_of-some (some (Json.obj fields)) e = absurd (ground arith)

number_of-some : (j : Option Json) {n : ℕ} → number_of j ≡ some n → j ≡ some (Json.num n)
number_of-some none e = absurd (ground arith)
number_of-some (some Json.null) e = absurd (ground arith)
number_of-some (some (Json.bool b)) e = absurd (ground arith)
number_of-some (some (Json.num n)) e = ground (arith, e)
number_of-some (some (Json.str s)) e = absurd (ground arith)
number_of-some (some (Json.arr items)) e = absurd (ground arith)
number_of-some (some (Json.obj fields)) e = absurd (ground arith)

parse_role-some : (name : String) {r : Role} → parse_role name ≡ some r → name ≡ role_name r
parse_role-some name e = ground (
  arith,
  e,
  eq_iff name "owner",
  eq_iff name "admin",
  eq_iff name "operator",
  eq_iff name "approver",
  eq_iff name "developer",
  eq_iff name "viewer",
  eq_iff name "billing_admin",
)

pub read_payload-IsComplete :
    (json : Json) (payload : SessionPayload)
    → read_payload json ≡ some payload
    → IsComplete json payload
unfolding read_payload
read_payload-IsComplete json payload e =
    let (name, at_role, e1) = >>=-some (text_of (field_of "role" json)) _ e in
    let (role, is_role, e2) = >>=-some (parse_role name) _ e1 in
    let (principal_id, at_principal, e3) = >>=-some (text_of (field_of "principalId" json)) _ e2 in
    let (org_id, at_org, e4) = >>=-some (text_of (field_of "orgId" json)) _ e3 in
    let (csrf, at_csrf, e5) = >>=-some (text_of (field_of "csrf" json)) _ e4 in
    let (expires_at, at_expiry, e6) = >>=-some (number_of (field_of "expiresAt" json)) _ e5 in
    let same : _ ≡ payload = some-inj e6 in
    subst (IsComplete json) same (record {
      role =
          text_of-some (field_of "role" json) at_role
          ∙ ap (λ s. some (Json.str s)) (parse_role-some name is_role);
      principal_id = text_of-some (field_of "principalId" json) at_principal;
      org_id = text_of-some (field_of "orgId" json) at_org;
      csrf = text_of-some (field_of "csrf" json) at_csrf;
      issued_at = refl;
      expires_at = number_of-some (field_of "expiresAt" json) at_expiry;
    })
