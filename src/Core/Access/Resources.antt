-- ===== src/Core/Access/Resources.antt =====
-- The resource of a grant in its normal form: `normalizeGrantResource` of
-- packages/core/src/store.ts.
use Prim.Native.Char.{Char, code}
use bek.Common.{
  ℕ, String, Bool, true, false, ◌&&◌, ◌||◌, not, Option, none, some, leb, eqb, if◌then◌else◌, ◌==◌,
  concat, [], ◌∷◌, or_else, trim,
}
use bek.Core.Types.{CapabilityKind}
use bek.Core.Rbac.Requests.{without_prefix}
use bek.Core.Access.Types.{AccessError, Outcome, returned, threw}

unfoldable pub is_github_capability : CapabilityKind → Bool
is_github_capability CapabilityKind.github_read = true
is_github_capability CapabilityKind.github_branch = true
is_github_capability CapabilityKind.github_pr = true
is_github_capability _ = false

-- `[A-Za-z0-9_.-]`
abbrev pub is_name_char : ℕ → Bool
is_name_char c =
    leb 65 c && leb c 90
    || leb 97 c && leb c 122
    || leb 48 c && leb c 57
    || eqb c 95
    || eqb c 46
    || eqb c 45

-- What a text begins with of such characters, and the rest.
abbrev pub split_name : String → String × String
split_name String.[] = ("", "")
split_name (String.◌∷◌ c s) =
    let rest = split_name s in
    if is_name_char (code c) then (String.◌∷◌ c rest.0, rest.1) else ("", String.◌∷◌ c s)

-- `^github:([A-Za-z0-9_.-]+)\/([A-Za-z0-9_.-]+)$`
unfoldable pub match_github : String → Option (String × String)
match_github resource = elim (without_prefix "github:" resource) [
  | none ↦ none
  | some text ↦
      let (owner, tail) = split_name text in
      elim (without_prefix "/" tail) [
        | none ↦ none
        | some path ↦
            let (repo, beyond) = split_name path in
            if owner == "" || repo == "" || not (beyond == "") then none else some (owner, repo)
      ]
]

abbrev pub letter_of : String → String → Char → Char
letter_of String.[] lower c = c
letter_of (String.◌∷◌ u upper) String.[] c = c
letter_of (String.◌∷◌ u upper) (String.◌∷◌ l lower) c =
    let rest = letter_of upper lower c in if eqb (code u) (code c) then l else rest

-- `toLowerCase` of a text in ASCII.
unfoldable pub to_lower_case_ascii : String → String
to_lower_case_ascii String.[] = ""
to_lower_case_ascii (String.◌∷◌ c s) =
    String.◌∷◌ (letter_of "ABCDEFGHIJKLMNOPQRSTUVWXYZ" "abcdefghijklmnopqrstuvwxyz" c)
      (to_lower_case_ascii s)

abbrev pub github_resource : Option (String × String) → Outcome String
github_resource none = threw AccessError.github_resource_malformed
github_resource (some (owner, repo)) =
    returned (concat ("github:" ∷ to_lower_case_ascii owner ∷ "/" ∷ repo ∷ []))

unfoldable pub normalize_grant_resource : CapabilityKind → Option String → Outcome String
normalize_grant_resource capability raw_resource =
    let resource = trim (or_else raw_resource "") in
    if resource == ""
    then threw AccessError.resource_required
    else if is_github_capability capability
    then github_resource (match_github resource)
    else returned resource
