-- ===== src/Select/Membership.antt =====
-- What the order of checks in internal/nodeselect/filter.go amounts to.

use easy_proxies_v.Base.{
  Bool, List, String, String_eq, [], any, arith, contains, false, if◌then◌else◌, keep, length,
  length-keep-le, ltb, nat_eq, not, refl, true, ℕ, ℕ_eq, ◌&&◌, ◌||◌, ◌∷◌, ◌≡◌,
}
use easy_proxies_v.Select.Filter.{
  Filter, Node, admit, allow, explain, explain_rules, explain_whitelist, refuse, rules_matched,
  tag_whitelist_mismatch,
}
use easy_proxies_v.Select.Region.{Texts, matches}

abbrev pub every : {A : Type 0} → (A → Bool) → List A → Bool
every p [] = true
every p (x ∷ xs) = p x && every p xs

length-keep_zero :
    {A : Type 0} (p : A → Bool) (xs : List A) → nat_eq (length (keep p xs)) 0 ≡ not (any p xs)
length-keep_zero p [] = refl
length-keep_zero p (x ∷ xs) = ground (arith, length-keep_zero p xs)

length-keep-every :
    {A : Type 0} (p : A → Bool) (xs : List A) → nat_eq (length (keep p xs)) (length xs) ≡ every p xs
length-keep-every p [] = refl
length-keep-every p (x ∷ xs) = ground (arith, length-keep-every p xs, length-keep-le p xs)

any-every :
    {A : Type 0} (p : A → Bool) (x : A) (xs : List A)
    → every p (x ∷ xs) ≡ true
    → any p (x ∷ xs) ≡ true
any-every p x xs h = ground arith

-- The test of the whitelist, whatever "carried" means and whether all tags are asked for.
whitelist_gate :
    {A : Type 0} (all : Bool) (p : A → Bool) (xs : List A)
    → (if ltb 0 (length xs)
          && (nat_eq (length (keep p xs)) 0
              || (all && not (nat_eq (length (keep p xs)) (length xs))))
        then refuse tag_whitelist_mismatch
        else admit rules_matched).allowed
      ≡ (nat_eq (length xs) 0 || (if all then every p xs else any p xs))
whitelist_gate all p [] = refl
whitelist_gate true p (x ∷ xs) =
    rw (length-keep_zero p (x ∷ xs), length-keep-every p (x ∷ xs))
      (ground (arith, any-every p x xs))
whitelist_gate false p (x ∷ xs) = rw (length-keep_zero p (x ∷ xs)) (ground arith)

module _ (unresolved : ℕ → String) (matches_all : String → Bool) (texts : Texts) where
  -- The whitelist: an empty one lets everything through, "all" asks for every tag, and any other
  -- match for one of them.
  abbrev pub whitelist_passes : Filter → Node → Bool
  whitelist_passes f node =
      nat_eq (length f.whitelist) 0
      || (if matches_all f.spec.tag_match
          then every (λ tag. contains tag node.tags) f.whitelist
          else any (λ tag. contains tag node.tags) f.whitelist)

  abbrev pub region_passes : Filter → Node → Bool
  region_passes f node =
      not (f.spec.require_region || ltb 0 (length f.spec.regions))
      || matches texts node.region f.spec.regions f.spec.include_unknown_region
          f.spec.region_rule_version

  abbrev pub rules_pass : Filter → Node → Bool
  rules_pass f node =
      region_passes f node
      && not (matches texts node.region f.spec.exclude_regions false f.spec.region_rule_version)
      && not (any (λ tag. contains tag f.blacklist) node.tags)
      && whitelist_passes f node

  explain_whitelist-allowed :
      (f : Filter) (node : Node)
      → (explain_whitelist unresolved matches_all texts f node).allowed ≡ whitelist_passes f node
  explain_whitelist-allowed f node =
      whitelist_gate (matches_all f.spec.tag_match) (λ tag. contains tag node.tags) f.whitelist

  explain_rules-allowed :
      (f : Filter) (node : Node)
      → (explain_rules unresolved matches_all texts f node).allowed ≡ rules_pass f node
  explain_rules-allowed f node = ground (arith, explain_whitelist-allowed f node)

  -- A filter admits a node exactly when the group is enabled, the node is not excluded by hand, and
  -- it is either included by hand or passes the region, blacklist and whitelist rules.
  pub allow-priority :
      (f : Filter) (node : Node)
      → allow unresolved matches_all texts f node ≡ (
          f.spec.enabled
          && not (contains node.id f.excluded)
          && (contains node.id f.explicit || rules_pass f node))
  unfolding allow explain
  allow-priority f node = ground (arith, explain_rules-allowed f node)
