-- ===== src/Examples/Calls.antt =====
-- internal/httpapi on concrete calls: a provider's own token for a request of that provider.
use jungle.Base.{◌≡◌, ◌⊎◌, refl, none, some, [], ◌∷◌}
use jungle.Money.Decimal.{Text}
use jungle.App.Identity.{Identity}
use jungle.Http.Auth.{identity_of, equal_fold, bearer_token}
use jungle.Http.Errors.{error_body}
use jungle.Http.Router.{Packages, Request, Call, serve}
use jungle.Http.Router.Access.{MayWrite, serve-allowed}
use jungle.Examples.Executions.{ids, world}
use jungle.Examples.Openings.{opening_ids}
use jungle.Examples.Requests.{codec, texts, digest, request, acme}

abbrev pub packages : Packages
packages = record {
  texts = texts;
  digest = digest;
  codec = codec;
  atoi = λ s. none;
  trim = λ s. s;
  verifier = some (λ raw. some acme);
}

-- "bearer t"
abbrev header : Text
header = b'b' ∷ b'e' ∷ b'a' ∷ b'r' ∷ b'e' ∷ b'r' ∷ b' ' ∷ b't' ∷ []

abbrev pub submission : Request
submission = record {
  authorization = header;
  correlation = "";
  call = Call.submit_transaction "k-1" (some request);
  opening_ids = opening_ids;
  ids = ids;
  fresh = 30;
  now = 60;
}

identity_of-header : identity_of packages.trim packages.verifier header ≡ some acme
unfolding identity_of bearer_token equal_fold
identity_of-header = refl

serve-allowed_example :
    ((identity_of packages.trim packages.verifier header ≡ none)
      × (serve packages submission world
          ≡ (record { status = 401; body = error_body "UNAUTHENTICATED" }, world)))
    ⊎ ((i : Identity) × (identity_of packages.trim packages.verifier header ≡ some i)
        × (((serve packages submission world).1.db ≡ world.db) ⊎ MayWrite i submission.call))
serve-allowed_example = serve-allowed packages submission world
