-- ===== src/Rebase/Merge.antt =====
-- internal/boxmgr/reload_rebase.go and `NodeConfig` of internal/config/config.go, over the nodes of three configurations that are there; a nil
-- configuration ends the source's function at once. `identity_of` is the hash that
-- `nodecodec.ParseURI` finds.

use easy_proxies_v.Base.{
  Bool, List, Option, String, String_eq, [], false, if◌then◌else◌, insert, length, lookup, none,
  not, some, suc, true, zero, ℕ, ℤ, ◌&&◌, ◌++◌, ◌+◌, ◌==◌, ◌||◌, ◌∷◌,
}

pub record NodeConfig : Type 0 where
  pub id : ℤ
  pub name : String
  pub uri : String
  pub port : ℕ
  pub username : String
  pub password : String
  pub source : String
  pub disabled : Bool
  pub region : String
  pub country : String
  pub tags : List String
  pub identity_hash : String
  pub canonical_json : String
  pub endpoint_key : String

-- The slices are compared element by element when their lengths agree.
abbrev pub same_texts : List String → List String → Bool
same_texts [] [] = true
same_texts (a ∷ xs) (b ∷ ys) = a == b && same_texts xs ys
same_texts _ _ = false

unfoldable pub node_facts_differ : NodeConfig → NodeConfig → Bool
node_facts_differ a b =
    not (a.region == b.region) || (not (a.country == b.country) || not (same_texts a.tags b.tags))

abbrev pub with_facts : NodeConfig → NodeConfig → NodeConfig
with_facts runtime target = record target {
  tags = runtime.tags;
  region = runtime.region;
  country = runtime.country;
}

-- The node at an index is replaced.
unfoldable pub update_at {ℓ} : {A : Type ℓ} → ℕ → (A → A) → List A → List A
update_at n f [] = []
update_at zero f (x ∷ xs) = f x ∷ xs
update_at (suc n) f (x ∷ xs) = x ∷ update_at n f xs

-- The nodes to commit, the index of each key in them, and how many were changed.
pub record Progress : Type 0 where
  pub nodes : List NodeConfig
  pub new_by_key : List (String × ℕ)
  pub mutated : ℕ

module _ (identity_of : String → Option String) where
  unfoldable pub node_key : NodeConfig → String
  node_key node =
      if not (node.identity_hash == "")
      then node.identity_hash
      else elim (identity_of node.uri) [ none ↦ node.uri | some hash ↦ hash ]

  -- A later node of the same key replaces an earlier one.
  unfoldable pub by_key : List NodeConfig → List (String × NodeConfig) → List (String × NodeConfig)
  by_key [] found = found
  by_key (node ∷ nodes) found = by_key nodes (insert (node_key node) node found)

  unfoldable pub index_by_key : ℕ → List NodeConfig → List (String × ℕ) → List (String × ℕ)
  index_by_key index [] found = found
  index_by_key index (node ∷ nodes) found =
      index_by_key (index + 1) nodes (insert (node_key node) index found)

  unfoldable pub rebase_node : List (String × NodeConfig) → NodeConfig → Progress → Progress
  rebase_node old_by_key runtime p = elim (lookup (node_key runtime) old_by_key) [
    | none ↦ elim (lookup (node_key runtime) p.new_by_key) [
      | some index ↦ p
      | none ↦ record {
        nodes = p.nodes ++ runtime ∷ [];
        new_by_key = insert (node_key runtime) (length p.nodes) p.new_by_key;
        mutated = p.mutated + 1;
      }
    ]
    | some old ↦ elim (lookup (node_key runtime) p.new_by_key) [
      | none ↦ p
      | some index ↦
          if node_facts_differ old runtime
          then record p {
            nodes = update_at index (with_facts runtime) p.nodes;
            mutated = p.mutated + 1;
          }
          else p
    ]
  ]

  unfoldable pub rebase_all : List (String × NodeConfig) → List NodeConfig → Progress → Progress
  rebase_all old_by_key [] p = p
  rebase_all old_by_key (runtime ∷ nodes) p =
      rebase_all old_by_key nodes (rebase_node old_by_key runtime p)

  unfoldable pub rebase_reloaded_nodes :
      List NodeConfig → List NodeConfig → List NodeConfig → Progress
  rebase_reloaded_nodes snapshot_nodes runtime_nodes new_nodes =
      rebase_all (by_key snapshot_nodes []) runtime_nodes
        (record { nodes = new_nodes; new_by_key = index_by_key 0 new_nodes []; mutated = 0 })
