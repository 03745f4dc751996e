-- ===== src/Select/Filter.antt =====
-- internal/nodeselect/filter.go: `New` and `Explain`. The sets of ids and names are lists; the text of
-- an unresolved tag and `strings.EqualFold(match, "all")` are parameters.

use easy_proxies_v.Base.{
  Bool, List, Option, String, String_eq, any, contains, false, if◌then◌else◌, keep, length, lookup,
  ltb, map, nat_eq, none, not, some, true, ℕ, ℕ_eq, ◌&&◌, ◌==◌, ◌||◌,
}
use easy_proxies_v.Select.Region.{Texts, matches, normalize}

pub record Node : Type 0 where
  pub id : ℕ
  pub region : String
  pub tags : List String

pub record Spec : Type 0 where
  pub enabled : Bool
  pub regions : List String
  pub exclude_regions : List String
  pub region_rule_version : ℕ
  pub include_unknown_region : Bool
  pub require_region : Bool
  pub explicit_ids : List ℕ
  pub excluded_ids : List ℕ
  pub tag_whitelist : List ℕ
  pub tag_blacklist : List ℕ
  pub tag_match : String

pub data Reason : Type 0 where
  group_disabled explicitly_excluded explicitly_included unknown_region region_mismatch : Reason
  region_excluded tag_blacklisted tag_whitelist_mismatch rules_matched : Reason

pub record Decision : Type 0 where
  pub allowed : Bool
  pub reason : Reason

abbrev pub refuse : Reason → Decision
refuse reason = record { allowed = false; reason = reason }

abbrev pub admit : Reason → Decision
admit reason = record { allowed = true; reason = reason }

pub record Filter : Type 0 where
  pub spec : Spec
  pub explicit : List ℕ
  pub excluded : List ℕ
  pub whitelist : List String
  pub blacklist : List String

module _ (unresolved : ℕ → String) (matches_all : String → Bool) (texts : Texts) where
  -- `resolve`: a missing name and an empty one are the same.
  abbrev pub resolve_tag : List (ℕ × String) → ℕ → String
  resolve_tag tag_names id = elim (lookup id tag_names) [
    | none ↦ unresolved id
    | some found ↦ if found == "" then unresolved id else found
  ]

  unfoldable pub new_filter : Spec → List (ℕ × String) → Filter
  new_filter spec tag_names = record {
    spec = spec;
    explicit = spec.explicit_ids;
    excluded = spec.excluded_ids;
    whitelist = map (resolve_tag tag_names) spec.tag_whitelist;
    blacklist = map (resolve_tag tag_names) spec.tag_blacklist;
  }

  abbrev pub explain_whitelist : Filter → Node → Decision
  explain_whitelist f node =
      let matched = length (keep (λ tag. contains tag node.tags) f.whitelist) in
      if ltb 0 (length f.whitelist)
        && (nat_eq matched 0
            || (matches_all f.spec.tag_match && not (nat_eq matched (length f.whitelist))))
      then refuse tag_whitelist_mismatch
      else admit rules_matched

  abbrev pub explain_tags : Filter → Node → Decision
  explain_tags f node =
      if any (λ tag. contains tag f.blacklist) node.tags
      then refuse tag_blacklisted
      else explain_whitelist f node

  abbrev pub explain_rules : Filter → Node → Decision
  explain_rules f node =
      if (f.spec.require_region || ltb 0 (length f.spec.regions))
        && not (
            matches texts node.region f.spec.regions f.spec.include_unknown_region
              f.spec.region_rule_version)
      then (if normalize texts node.region == ""
          then refuse unknown_region
          else refuse region_mismatch)
      else if matches texts node.region f.spec.exclude_regions false f.spec.region_rule_version
      then refuse region_excluded
      else explain_tags f node

  unfoldable pub explain : Filter → Node → Decision
  explain f node =
      if not f.spec.enabled
      then refuse group_disabled
      else if contains node.id f.excluded
      then refuse explicitly_excluded
      else if contains node.id f.explicit
      then admit explicitly_included
      else explain_rules f node

  unfoldable pub allow : Filter → Node → Bool
  allow f node = (explain f node).allowed

-- internal/groupmember/filter.go: the columns of a group that are read, and the members it admits.
pub record GroupPoolConfig : Type 0 where
  pub enabled : Bool
  pub regions : List String
  pub exclude_regions : List String
  pub region_rule_version : ℕ
  pub include_unknown_region : Bool
  pub explicit_node_ids : List ℕ
  pub excluded_node_ids : List ℕ
  pub tag_whitelist : List ℕ
  pub tag_blacklist : List ℕ
  pub tag_filter_match : String

abbrev pub spec_of : GroupPoolConfig → Spec
spec_of group = record {
  enabled = group.enabled;
  regions = group.regions;
  exclude_regions = group.exclude_regions;
  region_rule_version = group.region_rule_version;
  include_unknown_region = group.include_unknown_region;
  require_region = true;
  explicit_ids = group.explicit_node_ids;
  excluded_ids = group.excluded_node_ids;
  tag_whitelist = group.tag_whitelist;
  tag_blacklist = group.tag_blacklist;
  tag_match = group.tag_filter_match;
}

module _ (unresolved : ℕ → String) (matches_all : String → Bool) (texts : Texts) where
  -- `Nodes`: nil for a disabled group, which is not the empty list.
  unfoldable pub nodes : List Node → GroupPoolConfig → List (ℕ × String) → Option (List Node)
  nodes all group tag_names =
      if not group.enabled
      then none
      else some (
          keep
            (allow unresolved matches_all texts
              (new_filter unresolved matches_all texts (spec_of group) tag_names))
            all)
