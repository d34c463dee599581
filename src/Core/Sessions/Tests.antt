-- ===== src/Core/Sessions/Tests.antt =====
-- A session token at a concrete input: packages/core/src/sessions.ts.
use bek.Common.{◌≡◌, refl, some, leb, if◌then◌else◌}
use bek.Core.Rbac.{Role}
use bek.Core.Sessions.{
  SessionPlatform, CreateSessionTokenInput, SessionRefusal, ok, refused, expiry_of, payload_json,
  create_session_token, verify_session_token, read_payload,
}
use bek.Core.Sessions.Tokens.{
  payload_of, IsReadable, IsSigned, verify-create_session_token, verify_session_token-IsSigned,
}

abbrev input : CreateSessionTokenInput
input = record {
  role = Role.approver;
  principal_id = "principal_1";
  org_id = "org_1";
  csrf = "csrf_1";
  secret = "secret";
  now_ms = 1000;
  ttl_ms = some 60;
}

-- One payload, and a signature that is its secret.
abbrev platform : SessionPlatform
platform = record {
  base64url = λ s. s;
  from_base64url = λ s. s;
  sign = λ body secret. "signature";
  stringify = λ json. "payload";
  parse = λ text. some (payload_json input);
}

input-IsReadable : IsReadable platform input
input-IsReadable = record {
  decoded = refl;
  parsed = refl;
  some_text = refl;
  dotless = λ body. refl;
}

verify-create_session_token_example :
    verify_session_token platform (some (create_session_token platform input)) "secret" 1059
    ≡ (if leb (expiry_of input) 1059 then refused SessionRefusal.expired else ok (payload_of input))
verify-create_session_token_example =
    verify-create_session_token platform input input-IsReadable 1059

verify_session_token-IsSigned_example :
    IsSigned platform "payload.signature" "secret" 1059 (payload_of input)
unfolding create_session_token
verify_session_token-IsSigned_example =
    verify_session_token-IsSigned platform "payload.signature" "secret" 1059 (payload_of input)
      verify-create_session_token_example

expired_later :
    verify_session_token platform (some (create_session_token platform input)) "secret" 1060
    ≡ refused SessionRefusal.expired
unfolding verify_session_token create_session_token read_payload
expired_later = refl
