-- ===== src/Rebase/Tests.antt =====
-- A reload during which one node moved, one was created and one was removed.

use easy_proxies_v.Base.{List, Option, String, [], false, insert, lookup, none, pos, refl, ◌∷◌, ◌≡◌}
use easy_proxies_v.Rebase.Merge.{
  NodeConfig, by_key, index_by_key, node_facts_differ, node_key, rebase_all, rebase_node,
  rebase_reloaded_nodes, update_at,
}
use easy_proxies_v.Rebase.Topology.{Extends, rebase_reloaded_nodes-Extends}

abbrev node_in : String → String → NodeConfig
node_in uri region = record {
  id = pos 0;
  name = "";
  uri = uri;
  port = 0;
  username = "";
  password = "";
  source = "";
  disabled = false;
  region = region;
  country = "";
  tags = [];
  identity_hash = "";
  canonical_json = "";
  endpoint_key = "";
}

abbrev unparsed : String → Option String
unparsed uri = none

abbrev snapshot : List NodeConfig
snapshot = node_in "a" "jp" ∷ node_in "gone" "us" ∷ []

abbrev runtime : List NodeConfig
runtime = node_in "a" "hk" ∷ node_in "gone" "hk" ∷ node_in "new" "sg" ∷ []

abbrev reloaded : List NodeConfig
reloaded = node_in "a" "jp" ∷ []

the_rebased :
    (rebase_reloaded_nodes unparsed snapshot runtime reloaded).nodes
    ≡ node_in "a" "hk" ∷ node_in "new" "sg" ∷ []
unfolding rebase_reloaded_nodes rebase_all rebase_node by_key index_by_key node_key
    node_facts_differ update_at insert lookup
the_rebased = refl

two_mutations : (rebase_reloaded_nodes unparsed snapshot runtime reloaded).mutated ≡ 2
unfolding rebase_reloaded_nodes rebase_all rebase_node by_key index_by_key node_key
    node_facts_differ update_at insert lookup
two_mutations = refl

rebase_reloaded_nodes-Extends_example :
    Extends unparsed
      (by_key unparsed snapshot [])
      reloaded
      (rebase_reloaded_nodes unparsed snapshot runtime reloaded).nodes
rebase_reloaded_nodes-Extends_example =
    rebase_reloaded_nodes-Extends unparsed snapshot runtime reloaded
