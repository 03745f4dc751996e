-- ===== src/Tags/Tests.antt =====
-- Runs of `Resolve` of internal/nodetag/resolver.go, with a condition that is a number.

use easy_proxies_v.Base.{
  All, List, [], insert, keep, length, lookup, map, pos, refl, sort_by, ℕ, ◌+◌, ◌∷◌, ◌≡◌,
}
use easy_proxies_v.Tags.Mutex.{in_group, note_is, resolve_rules-accounts, rule_is}
use easy_proxies_v.Tags.Resolve.{
  Rule, TagMeta, contend, occupy_manual, resolve_rules, visit_rule, visit_rules,
}
use easy_proxies_v.Tags.Winner.{Yields, resolve_rules-best}

abbrev tag : ℕ → ℕ → ℕ → TagMeta
tag id group priority = record {
  tag_id = id;
  name = "tag";
  mutex_group_id = group;
  priority = pos priority;
}

abbrev rule_of : TagMeta → Rule ℕ
rule_of meta = record { meta = meta; rule_version = 1; condition = 0 }

abbrev matched : List (Rule ℕ)
matched = rule_of (tag 1 5 1) ∷ rule_of (tag 2 5 9) ∷ rule_of (tag 3 0 0) ∷ []

resolve_rules-accounts_example :
    length (keep (rule_is 1 5) (resolve_rules matched [] []).applied)
      + length (keep (note_is 1 5) (resolve_rules matched [] []).shadowed)
    ≡ length (keep (rule_is 1 5) matched)
resolve_rules-accounts_example = resolve_rules-accounts 1 5 matched [] []

second_wins : map (λ (r : Rule ℕ). r.tag_id) (resolve_rules matched [] []).applied ≡ 2 ∷ 3 ∷ []
unfolding resolve_rules visit_rules visit_rule contend occupy_manual sort_by lookup insert
second_wins = refl

one_of_group : keep (in_group 5) (resolve_rules matched [] []).applied ≡ rule_of (tag 2 5 9) ∷ []
unfolding resolve_rules visit_rules visit_rule contend occupy_manual sort_by lookup insert
one_of_group = refl

resolve_rules-best_example : All (Yields 5 (rule_of (tag 2 5 9))) matched
resolve_rules-best_example =
    resolve_rules-best 5 (rule_of (tag 2 5 9)) matched [] [] refl one_of_group
