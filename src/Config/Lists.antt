-- ===== src/Config/Lists.antt =====
-- internal/config/config.go: a setting that is a list is read from its entries.
use jungle.Base.{◌≡◌, ◌≢◌, ◌∙◌, refl, ap, String, false, List, [], ◌∷◌}
use jungle.Store.Ledger.{append}
use jungle.Config.{Parsers, is_empty, is_comma, split_commas, kept_items, env_list}

-- The entries with commas between them.
unfoldable pub join_items : List String → String
join_items [] = ""
join_items (item ∷ []) = item
join_items (item ∷ next ∷ items) = append item (append "," (join_items (next ∷ items)))

abbrev pub HasNoComma : String → Type 0
HasNoComma String.[] = Unit
HasNoComma (String.◌∷◌ c s) = (is_comma c ≡ false) × HasNoComma s

-- The items that entries without commas hold: an entry that is blank holds none, any other one what
-- is left without the blanks around it.
pub data Holds (trim : String → String) : List String → List String → Type 0 where
  no_entries : Holds trim [] []
  blank :
      {entry : String} {entries items : List String}
      → HasNoComma entry
      → trim entry ≡ ""
      → Holds trim entries items
      → Holds trim (entry ∷ entries) items
  filled :
      {entry item : String} {entries items : List String}
      → HasNoComma entry
      → trim entry ≡ item
      → item ≢ ""
      → Holds trim entries items
      → Holds trim (entry ∷ entries) (item ∷ items)

split_commas-append :
    (a b : String) → HasNoComma a → split_commas (append a (append "," b)) ≡ a ∷ split_commas b
unfolding split_commas append
split_commas-append String.[] b h = refl
split_commas-append (String.◌∷◌ c a) b (first, h) = rw (first, split_commas-append a b h) refl

split_commas-item : (a : String) → HasNoComma a → split_commas a ≡ a ∷ []
unfolding split_commas
split_commas-item String.[] h = refl
split_commas-item (String.◌∷◌ c a) (first, h) = rw (first, split_commas-item a h) refl

abbrev HaveNoCommas : List String → Type 0
HaveNoCommas [] = Unit
HaveNoCommas (entry ∷ entries) = HasNoComma entry × HaveNoCommas entries

Holds-HaveNoCommas :
    {trim : String → String} {entries items : List String}
    → Holds trim entries items
    → HaveNoCommas entries
Holds-HaveNoCommas no_entries = tt
Holds-HaveNoCommas (blank plain _ h) = (plain, Holds-HaveNoCommas h)
Holds-HaveNoCommas (filled plain _ _ h) = (plain, Holds-HaveNoCommas h)

split_commas-join_items :
    (entry : String) (entries : List String)
    → HaveNoCommas (entry ∷ entries)
    → split_commas (join_items (entry ∷ entries)) ≡ entry ∷ entries
unfolding join_items
split_commas-join_items entry [] (plain, _) = split_commas-item entry plain
split_commas-join_items entry (next ∷ entries) (plain, rest) =
    rw (split_commas-append entry (join_items (next ∷ entries)) plain)
      (ap (λ xs. entry ∷ xs) (split_commas-join_items next entries rest))

is_empty-false : (a : String) → a ≢ "" → is_empty a ≡ false
is_empty-false String.[] h = absurd (h refl)
is_empty-false (String.◌∷◌ c a) h = refl

kept_items-Holds :
    {trim : String → String} {entries items : List String}
    → Holds trim entries items
    → kept_items trim entries ≡ items
unfolding kept_items
kept_items-Holds no_entries = refl
kept_items-Holds (blank _ trimmed h) = rw (trimmed, kept_items-Holds h) refl
kept_items-Holds (filled {item = item} _ trimmed given h) =
    rw (trimmed, is_empty-false item given, kept_items-Holds h) refl

module _ {Float : Type 0} (parsers : Parsers Float) (getenv : String → String) where
  -- Without a value the only entry is the empty text, which holds no item.
  env_list-split :
      (key value : String)
      → parsers.trim "" ≡ ""
      → getenv key ≡ value
      → env_list parsers getenv key ≡ kept_items parsers.trim (split_commas value)
  unfolding env_list kept_items split_commas
  env_list-split key String.[] none_left given = rw (given, none_left) refl
  env_list-split key (String.◌∷◌ c value) none_left given = rw given refl

  -- A variable whose value is made of entries with commas between them, none of which has a comma in
  -- it, is read as the items that they hold: of each entry that is not blank, in their order, what is
  -- left without the blanks around it. Trimming is any function that leaves the empty text as it is.
  pub env_list-join_items :
      (key : String) (entries items : List String)
      → parsers.trim "" ≡ ""
      → Holds parsers.trim entries items
      → getenv key ≡ join_items entries
      → env_list parsers getenv key ≡ items
  unfolding env_list join_items kept_items
  env_list-join_items key [] items none_left h given = rw given (kept_items-Holds h)
  env_list-join_items key (entry ∷ entries) items none_left h given =
      env_list-split key (join_items (entry ∷ entries)) none_left given
      ∙ ap (kept_items parsers.trim) (split_commas-join_items entry entries (Holds-HaveNoCommas h))
      ∙ kept_items-Holds h
