-- ===== src/Core/Sessions/Tokens.antt =====
-- What a session token proves, and who is let in by it: packages/core/src/sessions.ts.
use Prim.Native.Char.{Char, code}
use Prim.Native.String.{◌++◌}
use text.Mathlib.TextEquality.{Char-path}
use text.Mathlib.TextLemmas.{nil-append, cons-append}
use bek.Common.{
  ℕ, ◌<◌, ◌≡◌, refl, ap, ◌∙◌, inl, inr, Bool-cases, true, false, String, Option, Option-cases, none,
  some, leb, eqb, if◌then◌else◌, ◌==◌, eq_iff, arith,
}
use bek.Common.Json.{Json}
use bek.Core.Rbac.{Role, role_name}
use bek.Core.Sessions.Payloads.{IsComplete, read_payload-IsComplete}
use bek.Core.Sessions.{
  SessionPlatform, SessionPayload, CreateSessionTokenInput, SessionRefusal, ok, refused, parse_role,
  expiry_of, payload_json, split_last, read_payload, check_payload, check_expiry,
  create_session_token, verify_parts, verify_session_token,
}

-- The dot of the token.
abbrev dot : String
dot = "."

dotted : (b : String) → split_last b ≡ none → split_last (dot ++ b) ≡ some ("", b)
dotted b h = rw (cons-append, nil-append, h) refl

extended :
    (c : Char) (s : String) {a b : String}
    → split_last s ≡ some (a, b)
    → split_last (String.◌∷◌ c s) ≡ some (String.◌∷◌ c a, b)
extended c s e = rw e refl

split_last-append :
    (a b : String) → split_last b ≡ none → split_last (a ++ (dot ++ b)) ≡ some (a, b)
split_last-append String.[] b h = rw nil-append (dotted b h)
split_last-append (String.◌∷◌ c a) b h =
    rw cons-append (extended c (a ++ (dot ++ b)) (split_last-append a b h))

dotted_back : (c : Char) (t : String) → code c ≡ 46 → String.◌∷◌ c t ≡ dot ++ t
dotted_back c t e = rw (cons-append, nil-append) (ap (λ d. String.◌∷◌ d t) (Char-path c _ e))

append-split_last : (t : String) {a b : String} → split_last t ≡ some (a, b) → t ≡ a ++ (dot ++ b)
append-split_last String.[] e = absurd (ground arith)
append-split_last (String.◌∷◌ c t) {a} {b} e = elim (Option-cases (split_last t)) [
  | inl out ↦ elim (Bool-cases (eqb (code c) 46)) [
    | inl hit ↦
        let parts : some ("", t) ≡ some (a, b) = rw (out, hit) at e in
        let before : "" ≡ a = cc in
        let after : t ≡ b = cc in
        rw⁻¹ before (rw⁻¹ after (rw nil-append (dotted_back c t (ground arith))))
    | inr miss ↦ absurd (ground (arith, e, out, miss))
  ]
  | inr ((x, y), found) ↦
      let parts : some (String.◌∷◌ c x, y) ≡ some (a, b) = rw found at e in
      let before : String.◌∷◌ c x ≡ a = cc in
      let after : y ≡ b = cc in
      rw⁻¹ before (rw⁻¹ after (rw cons-append (ap (String.◌∷◌ c) (append-split_last t found))))
]

parse_role-name : (r : Role) → parse_role (role_name r) ≡ some r
parse_role-name Role.owner = refl
parse_role-name Role.admin = refl
parse_role-name Role.operator = refl
parse_role-name Role.approver = refl
parse_role-name Role.developer = refl
parse_role-name Role.viewer = refl
parse_role-name Role.billing_admin = refl

-- The payload that is put into a token.
abbrev pub payload_of : CreateSessionTokenInput → SessionPayload
payload_of input = record {
  role = input.role;
  principal_id = input.principal_id;
  org_id = input.org_id;
  csrf = input.csrf;
  issued_at = some (Json.num input.now_ms);
  expires_at = expiry_of input;
}

read_payload-json :
    (input : CreateSessionTokenInput) → read_payload (payload_json input) ≡ some (payload_of input)
unfolding read_payload
read_payload-json input = rw (parse_role-name input.role) refl

abbrev pub body_of : SessionPlatform → CreateSessionTokenInput → String
body_of p input = p.base64url (p.stringify (payload_json input))

-- What the platform does with the text of one payload: it reads it back, it is not empty in
-- base64url, and no signature has a dot.
pub record IsReadable (p : SessionPlatform) (input : CreateSessionTokenInput) : Type 0 where
  pub decoded : p.from_base64url (body_of p input) ≡ p.stringify (payload_json input)
  pub parsed : p.parse (p.stringify (payload_json input)) ≡ some (payload_json input)
  pub some_text : (body_of p input == "") ≡ false
  pub dotless : (body : String) → split_last (p.sign body input.secret) ≡ none

-- The token has the signature of its body, the body is a payload with every field, and it has not
-- expired.
pub record IsSigned (p : SessionPlatform) (token secret : String) (now_ms : ℕ)
    (payload : SessionPayload) : Type 0 where
  pub body : String
  pub json : Json
  pub signed : token ≡ body ++ (dot ++ p.sign body secret)
  pub parsed : p.parse (p.from_base64url body) ≡ some json
  pub complete : IsComplete json payload
  pub unexpired : now_ms < payload.expires_at

cons_nonempty : (c : Char) (s : String) → (String.◌∷◌ c s == "") ≡ false
cons_nonempty c s = elim (Bool-cases (String.◌∷◌ c s == "")) [
  | inr full ↦ full
  | inl empty ↦
      let e : String.◌∷◌ c s ≡ String.[] = (eq_iff (String.◌∷◌ c s) "").0 empty in absurd cc
]

joined_nonempty : (a b : String) → (a ++ (dot ++ b) == "") ≡ false
joined_nonempty String.[] b = rw (nil-append, cons-append) (cons_nonempty _ _)
joined_nonempty (String.◌∷◌ c a) b = rw cons-append (cons_nonempty _ _)

module _ (p : SessionPlatform) where
  -- A token that is created is verified with the secret it was signed with, and gives back what it
  -- was created for until its lifetime is over; from then on it has expired. The platform is to
  -- read back the text of that payload, and to write signatures without a dot.
  pub verify-create_session_token :
      (input : CreateSessionTokenInput)
      → IsReadable p input
      → (now_ms : ℕ)
      → verify_session_token p (some (create_session_token p input)) input.secret now_ms ≡ (
          if leb (expiry_of input) now_ms
          then refused SessionRefusal.expired
          else ok (payload_of input))
  unfolding verify_session_token create_session_token
  verify-create_session_token input h now_ms =
      let body = body_of p input in
      let signature = p.sign body input.secret in
      let same : (signature == signature) ≡ true = (eq_iff signature signature).1 refl in
      rw
        (
          joined_nonempty body signature,
          split_last-append body signature (h.dotless body),
          h.some_text,
          same,
          h.decoded,
          h.parsed,
          read_payload-json input,
        )
        refl

  check_expiry_ok :
      (now_ms : ℕ) (read : Option SessionPayload) (payload : SessionPayload)
      → check_expiry now_ms read ≡ ok payload
      → (read ≡ some payload) × (now_ms < payload.expires_at)
  check_expiry_ok now_ms none payload e = absurd (ground arith)
  check_expiry_ok now_ms (some x) payload e = elim (Bool-cases (leb x.expires_at now_ms)) [
    | inl over ↦ absurd (ground (arith, e, over))
    | inr live ↦
        let same : ok x ≡ ok payload = rw live at e in
        let eq : x ≡ payload = cc in (ap some eq, rw⁻¹ eq (ground (arith, live)))
  ]

  check_payload_ok :
      (now_ms : ℕ) (parsed : Option Json) (payload : SessionPayload)
      → check_payload now_ms parsed ≡ ok payload
      → (json : Json) × (parsed ≡ some json)
        × (read_payload json ≡ some payload)
        × (now_ms < payload.expires_at)
  check_payload_ok now_ms none payload e = absurd (ground arith)
  check_payload_ok now_ms (some json) payload e =
      let (read, live) = check_expiry_ok now_ms (read_payload json) payload e in
      (json, refl, read, live)

  verify_parts-IsSigned :
      (token secret : String) (now_ms : ℕ) (parts : Option (String × String))
      (payload : SessionPayload)
      → split_last token ≡ parts
      → verify_parts p secret now_ms parts ≡ ok payload
      → IsSigned p token secret now_ms payload
  verify_parts-IsSigned token secret now_ms none payload split e = absurd (ground arith)
  verify_parts-IsSigned token secret now_ms (some (body, provided)) payload split e =
      elim (Bool-cases (body == "")) [
        | inl empty ↦ absurd (ground (arith, e, empty))
        | inr full ↦ elim (Bool-cases (provided == p.sign body secret)) [
          | inr other ↦ absurd (ground (arith, e, full, other))
          | inl same ↦
              let (json, parsed, read, live) =
                check_payload_ok now_ms (p.parse (p.from_base64url body)) payload
                  (rw (full, same) at e) in
              record {
                body = body;
                json = json;
                signed =
                    append-split_last token split
                    ∙ ap (λ x. body ++ (dot ++ x)) ((eq_iff provided (p.sign body secret)).0 same);
                parsed = parsed;
                complete = read_payload-IsComplete json payload read;
                unexpired = live;
              }
        ]
      ]

  -- A token is verified only where it ends in the signature of what stands before its last dot,
  -- under the secret, and that is a payload which has not expired: a JSON object with a principal's
  -- id, an organisation's id and a CSRF secret that are texts, an expiry that is a number, and the name
  -- of a role.
  pub verify_session_token-IsSigned :
      (token secret : String) (now_ms : ℕ) (payload : SessionPayload)
      → verify_session_token p (some token) secret now_ms ≡ ok payload
      → IsSigned p token secret now_ms payload
  unfolding verify_session_token
  verify_session_token-IsSigned token secret now_ms payload e = elim (Bool-cases (token == "")) [
    | inl empty ↦ absurd (ground (arith, e, empty))
    | inr full ↦
        verify_parts-IsSigned token secret now_ms (split_last token) payload refl (rw full at e)
  ]
