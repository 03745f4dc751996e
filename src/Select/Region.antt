-- ===== src/Select/Region.antt =====
-- internal/noderegion/region.go. The alias table is filled from golang.org/x/text, so `aliases` is a
-- parameter, and so are the text routines `fold` (ToLower after TrimSpace) and `flag` (the country of
-- two regional indicator runes, and any other text as it is).

use easy_proxies_v.Base.{
  Bool, List, Option, String, String_eq, [], any, contains, false, if◌then◌else◌, ltb, none, not,
  some, true, ℕ, ◌&&◌, ◌==◌, ◌||◌, ◌∷◌,
}

abbrev pub other_region : String
other_region = "other"

abbrev pub current_version : ℕ
current_version = 2

-- What is read from the library of texts and countries.
pub record Texts : Type 0 where
  pub fold : String → String
  pub flag : String → String
  pub aliases : String → String
  pub names : String → Option String

module _ (texts : Texts) where
  unfoldable pub normalize : String → String
  normalize value =
      let folded = texts.fold value in
      if folded == "" then "" else texts.aliases (texts.flag folded)

  unfoldable pub valid : String → Bool
  valid code = elim (texts.names code) [ none ↦ false | some _ ↦ true ]

  unfoldable pub name : String → String
  name code = if code == other_region then "Other" else elim (texts.names (normalize code)) [
    | none ↦ "Unknown"
    | some found ↦ if found == "" then "Unknown" else found
  ]

  unfoldable pub is_other : String → Bool
  is_other code =
      let normal = normalize code in
      not (normal == "") && not (contains normal ("jp" ∷ "kr" ∷ "us" ∷ "hk" ∷ "tw" ∷ []))

  unfoldable pub legacy : String → String
  legacy value = let folded = texts.fold value in if folded == "" then other_region else folded

  abbrev pub legacy_matches : String → String → Bool
  legacy_matches value candidate = legacy candidate == legacy value

  -- One selected region against the code of a node.
  abbrev pub region_matches : String → String → Bool
  region_matches code candidate =
      (texts.fold candidate == other_region && is_other code) || normalize candidate == code

  unfoldable pub matches : String → List String → Bool → ℕ → Bool
  matches value regions include_unknown version =
      if ltb version current_version
      then any (legacy_matches value) regions
      else if normalize value == ""
      then include_unknown
      else any (region_matches (normalize value)) regions
