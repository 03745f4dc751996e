-- ===== src/Rebase/Topology.antt =====
-- The decisions of a reload on its nodes stand: the rebase changes facts and adds new nodes.
use mathlib.Core.List.{append_assoc, append-nil}
use easy_proxies_v.Base.{
  All, All-append, List, Option, String, String_eq, [], ap, if_cases, lookup, map, none,
  option_cases, refl, suc, sym, zero, ℕ, ◌++◌, ◌∙◌, ◌∷◌, ◌≡◌,
}
use easy_proxies_v.Rebase.Merge.{
  NodeConfig, Progress, by_key, node_facts_differ, node_key, rebase_all, rebase_node,
  rebase_reloaded_nodes, update_at, with_facts,
}

-- A node without the facts that a reload's window may change.
abbrev pub core : NodeConfig → NodeConfig
core node = record node { tags = []; region = ""; country = "" }

map-update_at :
    (n : ℕ) (runtime : NodeConfig) (nodes : List NodeConfig)
    → map core (update_at n (with_facts runtime) nodes) ≡ map core nodes
unfolding update_at
map-update_at n runtime [] = refl
map-update_at zero runtime (x ∷ xs) = refl
map-update_at (suc n) runtime (x ∷ xs) = ap (λ ys. core x ∷ ys) (map-update_at n runtime xs)

map_append : (xs ys : List NodeConfig) → map core (xs ++ ys) ≡ map core xs ++ map core ys
map_append [] ys = refl
map_append (x ∷ xs) ys = ap (λ zs. core x ∷ zs) (map_append xs ys)

-- `after` has the nodes of `before`, but for their facts, and then some that were created in the
-- window: their keys are not in the snapshot.
abbrev pub Extends :
    (String → Option String)
    → List (String × NodeConfig)
    → List NodeConfig
    → List NodeConfig
    → Type 0
Extends identity_of old before now =
    (created : List NodeConfig) × (map core now ≡ map core before ++ created)
    × All (λ node. lookup (node_key identity_of node) old ≡ none) created

update_at-Extends :
    (identity_of : String → Option String) (old : List (String × NodeConfig))
    (before now : List NodeConfig) (n : ℕ) (runtime : NodeConfig)
    → Extends identity_of old before now
    → Extends identity_of old before (update_at n (with_facts runtime) now)
update_at-Extends identity_of old before now n runtime (created, same, fresh) =
    (created, map-update_at n runtime now ∙ same, fresh)

appended-Extends :
    (identity_of : String → Option String) (old : List (String × NodeConfig))
    (before now : List NodeConfig) (runtime : NodeConfig)
    → (lookup (node_key identity_of runtime) old ≡ none)
    → Extends identity_of old before now
    → Extends identity_of old before (now ++ runtime ∷ [])
unfolding node_key
appended-Extends identity_of old before now runtime missing (created, same, fresh) = (
  created ++ core runtime ∷ [],
  map_append now (runtime ∷ [])
      ∙ ap (λ xs. xs ++ core runtime ∷ []) same
      ∙ append_assoc (map core before) created (core runtime ∷ []),
  All-append _ created (core runtime ∷ []) fresh (missing, tt),
)

rebase_node-Extends :
    (identity_of : String → Option String) (old : List (String × NodeConfig))
    (before : List NodeConfig) (runtime : NodeConfig) (p : Progress)
    → Extends identity_of old before p.nodes
    → Extends identity_of old before (rebase_node identity_of old runtime p).nodes
unfolding rebase_node
rebase_node-Extends identity_of old before runtime p extends =
    option_cases {B = Progress} (λ q. Extends identity_of old before q.nodes)
      (lookup (node_key identity_of runtime) old) _ _
      (λ missing.
        option_cases {B = Progress} (λ q. Extends identity_of old before q.nodes)
          (lookup (node_key identity_of runtime) p.new_by_key) _ _
          (λ _. appended-Extends identity_of old before p.nodes runtime missing extends)
          (λ _ _. extends))
      (λ was _.
        option_cases {B = Progress} (λ q. Extends identity_of old before q.nodes)
          (lookup (node_key identity_of runtime) p.new_by_key) _ _ (λ _. extends)
          (λ index _.
            if_cases {A = Progress} (λ q. Extends identity_of old before q.nodes)
              (node_facts_differ was runtime) _ _
              (λ _. update_at-Extends identity_of old before p.nodes index runtime extends)
              (λ _. extends)))

rebase_all-Extends :
    (identity_of : String → Option String) (old : List (String × NodeConfig))
    (before runtime_nodes : List NodeConfig) (p : Progress)
    → Extends identity_of old before p.nodes
    → Extends identity_of old before (rebase_all identity_of old runtime_nodes p).nodes
unfolding rebase_all
rebase_all-Extends identity_of old before [] p extends = extends
rebase_all-Extends identity_of old before (runtime ∷ nodes) p extends =
    rebase_all-Extends identity_of old before nodes (rebase_node identity_of old runtime p)
      (rebase_node-Extends identity_of old before runtime p extends)

-- After a rebase the nodes of the reload's result stand in their order, unchanged but for tags,
-- region and country, so that a node it removed stays out; behind them stand nodes whose key the
-- snapshot does not have.
pub rebase_reloaded_nodes-Extends :
    (identity_of : String → Option String)
    (snapshot_nodes runtime_nodes new_nodes : List NodeConfig)
    → Extends identity_of
        (by_key identity_of snapshot_nodes [])
        new_nodes
        (rebase_reloaded_nodes identity_of snapshot_nodes runtime_nodes new_nodes).nodes
unfolding rebase_reloaded_nodes
rebase_reloaded_nodes-Extends identity_of snapshot_nodes runtime_nodes new_nodes =
    rebase_all-Extends identity_of (by_key identity_of snapshot_nodes []) new_nodes runtime_nodes _
      ([], sym (append-nil (map core new_nodes)), tt)
