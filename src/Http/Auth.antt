-- ===== src/Http/Auth.antt =====
-- internal/httpapi/auth.go and module.go: the identity that a request's bearer token gives. The check
-- of a token's signature and its claims belong to the OIDC package. A header is the list of its bytes.
use jungle.Base.{
  ℕ, zero, suc, ◌+◌, String, Bool, true, false, not, ◌&&◌, ◌||◌, Option, none, some, List, [], ◌∷◌,
  str_eq, ◌==◌, leb, if◌then◌else◌, length, take,
}
use jungle.Money.Decimal.{Text}
use jungle.App.Identity.{Identity}

-- A verified token, as far as `Verify` reads it; `claims` is none where they cannot be read.
pub record Claims : Type 0 where
  pub roles : List String
  pub provider_id : String

pub record Token : Type 0 where
  pub issuer : String
  pub claims : Option Claims

abbrev pub internal_identity : Identity
internal_identity = record { provider_id = ""; is_internal = true }

abbrev pub provider_identity : String → Identity
provider_identity id = record { provider_id = id; is_internal = false }

-- The loop over the roles; `none` is an error.
unfoldable pub identity_of_roles : String → List String → Option Identity
identity_of_roles provider [] = none
identity_of_roles provider (role ∷ roles) =
    let rest = identity_of_roles provider roles in
    if str_eq role "internal-service"
    then some internal_identity
    else if str_eq role "provider"
    then (if str_eq provider "" then none else some (provider_identity provider))
    else rest

abbrev identity_of_claims : Option Claims → Option Identity
identity_of_claims none = none
identity_of_claims (some c) = identity_of_roles c.provider_id c.roles

unfoldable pub is_accepted : String → List String → Bool
is_accepted issuer [] = false
is_accepted issuer (i ∷ is) = if str_eq i issuer then true else is_accepted issuer is

abbrev identity_of_token : List String → Option Token → Option Identity
identity_of_token issuers none = none
identity_of_token issuers (some t) =
    if not (is_accepted t.issuer issuers) then none else identity_of_claims t.claims

-- `OIDCVerifier.Verify`: `check` is that of the OIDC package, and `issuers` are the keys of
-- `acceptedIssuers`.
unfoldable pub verify : (Text → Option Token) → List String → Text → Option Identity
verify check issuers raw = identity_of_token issuers (check raw)

-- `lazyVerifier.Verify`: there is no verifier before the issuer was found.
abbrev pub lazy_verify : Option (Text → Option Identity) → Text → Option Identity
lazy_verify none raw = none
lazy_verify (some check) raw = check raw

-- A letter without its case. The prefix has none of the letters that Unicode folds to others.
abbrev fold_case : ℕ → ℕ
fold_case c = if leb b'A' c && leb c b'Z' then c + 32 else c

unfoldable pub equal_fold : Text → Text → Bool
equal_fold [] [] = true
equal_fold (a ∷ s) (b ∷ t) = fold_case a == fold_case b && equal_fold s t
equal_fold _ _ = false

abbrev pub drop : ℕ → Text → Text
drop zero s = s
drop (suc n) [] = []
drop (suc n) (c ∷ s) = drop n s

-- "Bearer "
abbrev pub bearer_prefix : Text
bearer_prefix = b'B' ∷ b'e' ∷ b'a' ∷ b'r' ∷ b'e' ∷ b'r' ∷ b' ' ∷ []

abbrev pub or_empty : Text → Option Text
or_empty [] = none
or_empty (c ∷ s) = some (c ∷ s)

-- `bearerToken`; `trim` is `strings.TrimSpace`.
unfoldable pub bearer_token : (Text → Text) → Text → Option Text
bearer_token trim header =
    if leb (length header) 7 || not (equal_fold (take 7 header) bearer_prefix)
    then none
    else or_empty (trim (drop 7 header))

abbrev identified : Option (Text → Option Identity) → Option Text → Option Identity
identified verifier none = none
identified verifier (some raw) = lazy_verify verifier raw

-- The identity that `Authenticate` finds; without one it answers 401.
unfoldable pub identity_of :
    (Text → Text) → Option (Text → Option Identity) → Text → Option Identity
identity_of trim verifier header = identified verifier (bearer_token trim header)
