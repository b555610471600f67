-- ===== src/Examples/Settings.antt =====
-- internal/config/config.go on an environment with two more issuers.
use Prim.Native.Char.{Char, code}
use jungle.Base.{Bool, ◌==◌, if◌then◌else◌, ℕ, ◌≡◌, refl, String, [], ◌∷◌, none}
use jungle.Store.Ledger.{append}
use jungle.Config.{Parsers, env_list}
use jungle.Config.Lists.{Holds, no_entries, blank, filled, join_items, env_list-join_items}

abbrev is_space : Char → Bool
is_space c = code c == 32

-- A trimming of the spaces before a text.
unfoldable trim_left : String → String
trim_left String.[] = ""
trim_left (String.◌∷◌ c s) = if is_space c then trim_left s else String.◌∷◌ c s

-- Parsers that know no text, over whole percentages for float64.
abbrev parsers : Parsers ℕ
parsers = record {
  atoi = λ s. none;
  parse_bool = λ s. none;
  parse_float = λ s. none;
  parse_duration = λ s. none;
  trim = trim_left;
  one = 100;
}

abbrev getenv : String → String
getenv key = " a,, b"

entries-Holds : Holds trim_left (" a" ∷ "" ∷ " b" ∷ []) ("a" ∷ "b" ∷ [])
unfolding trim_left
entries-Holds =
    filled (refl, (refl, tt)) refl (λ x. cc)
      (blank tt refl (filled (refl, (refl, tt)) refl (λ x. cc) no_entries))

getenv-joined : getenv "OIDC_ADDITIONAL_ISSUERS" ≡ join_items (" a" ∷ "" ∷ " b" ∷ [])
unfolding join_items append
getenv-joined = refl

trim-nothing : trim_left "" ≡ ""
unfolding trim_left
trim-nothing = refl

env_list-join_items_example : env_list parsers getenv "OIDC_ADDITIONAL_ISSUERS" ≡ "a" ∷ "b" ∷ []
env_list-join_items_example =
    env_list-join_items parsers getenv "OIDC_ADDITIONAL_ISSUERS" (" a" ∷ "" ∷ " b" ∷ [])
      ("a" ∷ "b" ∷ []) trim-nothing entries-Holds getenv-joined
