-- ===== src/Select/Tests.antt =====
-- Runs of the membership filter of internal/nodeselect/filter.go.

use easy_proxies_v.Base.{
  Bool, String, String_eq, [], contains, false, lookup, not, refl, some, true, ℕ, ℕ_eq, ◌&&◌, ◌==◌,
  ◌||◌, ◌∷◌, ◌≡◌,
}
use easy_proxies_v.Select.Filter.{
  Filter, GroupPoolConfig, Node, allow, explain, new_filter, spec_of,
}
use easy_proxies_v.Select.Membership.{allow-priority, rules_pass}
use easy_proxies_v.Select.Region.{Texts, is_other, matches, normalize}

abbrev texts : Texts
texts = record { fold = λ t. t; flag = λ t. t; aliases = λ t. t; names = λ t. some t }

abbrev unresolved : ℕ → String
unresolved id = "unresolved"

abbrev matches_all : String → Bool
matches_all match = match == "all"

abbrev group : GroupPoolConfig
group = record {
  enabled = true;
  regions = "jp" ∷ [];
  exclude_regions = [];
  region_rule_version = 2;
  include_unknown_region = false;
  explicit_node_ids = 4 ∷ [];
  excluded_node_ids = 5 ∷ [];
  tag_whitelist = 1 ∷ [];
  tag_blacklist = [];
  tag_filter_match = "all";
}

abbrev filter : Filter
filter = new_filter unresolved matches_all texts (spec_of group) ((1, "fast") ∷ [])

abbrev node : Node
node = record { id = 3; region = "jp"; tags = "fast" ∷ [] }

allow-priority_example : allow unresolved matches_all texts filter node ≡ (
    filter.spec.enabled
    && not (contains node.id filter.excluded)
    && (contains node.id filter.explicit || rules_pass unresolved matches_all texts filter node))
allow-priority_example = allow-priority unresolved matches_all texts filter node

node_allowed : allow unresolved matches_all texts filter node ≡ true
unfolding allow explain new_filter matches normalize is_other lookup
node_allowed = refl
