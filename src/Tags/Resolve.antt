-- ===== src/Tags/Resolve.antt =====
-- internal/nodetag/resolver.go and model.go: `CompileRules` and `Resolve`. Conditions belong to
-- internal/nodefacts: their type, their parser and their emptiness are parameters. The parallel
-- slices of tag ids and rule versions are one list of pairs.

use easy_proxies_v.Base.{
  Bool, List, Option, String, String_eq, [], eq_ℤ, if◌then◌else◌, insert, lookup, ltb, ltb_ℤ, map,
  none, not, some, sort_by, ℕ, ℕ_eq, ℤ, ◌++◌, ◌==◌, ◌||◌, ◌∷◌,
}

pub record TagMeta : Type 0 where
  pub tag_id : ℕ
  pub name : String
  pub mutex_group_id : ℕ
  pub priority : ℤ

pub record Rule (C : Type 0) : Type 0 where
  pub meta : TagMeta
  pub open meta use *
  pub rule_version : ℕ
  pub condition : C

pub data ShadowReason : Type 0 where
  lower_priority manual_occupies_group : ShadowReason

pub record ShadowNote : Type 0 where
  pub tag_id : ℕ
  pub tag_name : String
  pub mutex_group_id : ℕ
  pub reason : ShadowReason
  pub winner_tag_id : ℕ
  pub winner_tag_name : String

pub record Decision : Type 0 where
  pub node_id : ℕ
  pub assigned : List (ℕ × ℕ)
  pub shadowed : List ShadowNote

-- The columns of a stored tag that are read here.
pub record StoredTag : Type 0 where
  pub id : ℕ
  pub name : String
  pub mutex_group_id : ℕ
  pub priority : ℤ
  pub auto_enabled : Bool
  pub rule_json : String
  pub rule_version : ℕ

abbrev pub meta_of : StoredTag → TagMeta
meta_of tag = record {
  tag_id = tag.id;
  name = tag.name;
  mutex_group_id = tag.mutex_group_id;
  priority = tag.priority;
}

pub record Compiled (C : Type 0) : Type 0 where
  pub rules : List (Rule C)
  pub meta : List (ℕ × TagMeta)
  pub skipped : List ℕ

-- The rule of one tag: none, a condition, or a text that does not parse.
pub data Parsed (C : Type 0) : Type 0 where
  no_rule : Parsed C
  unparseable : Parsed C
  rule : C → Parsed C

module _ {C : Type 0} (parse : String → Option C) (is_empty : C → Bool) where
  unfoldable pub parse_tag : StoredTag → Parsed C
  parse_tag tag =
      if not tag.auto_enabled || tag.rule_json == "" then no_rule else elim (parse tag.rule_json) [
        | none ↦ unparseable
        | some c ↦ if is_empty c then no_rule else rule c
      ]

  unfoldable pub compile_tag : StoredTag → Parsed C → Compiled C → Compiled C
  compile_tag tag no_rule s = record s { meta = insert tag.id (meta_of tag) s.meta }
  compile_tag tag unparseable s = record s {
    meta = insert tag.id (meta_of tag) s.meta;
    skipped = s.skipped ++ tag.id ∷ [];
  }
  compile_tag tag (rule c) s = record {
    meta = insert tag.id (meta_of tag) s.meta;
    rules =
        s.rules
        ++ record { meta = meta_of tag; rule_version = tag.rule_version; condition = c } ∷ [];
    skipped = s.skipped;
  }

  unfoldable pub compile_from : List StoredTag → Compiled C → Compiled C
  compile_from [] s = s
  compile_from (tag ∷ rest) s = compile_from rest (compile_tag tag (parse_tag tag) s)

  unfoldable pub compile_rules : List StoredTag → Compiled C
  compile_rules tags = compile_from tags (record { rules = []; meta = []; skipped = [] })

-- The map of occupants after the manual tags: the first tag of a group holds it.
unfoldable pub occupy_manual : List (ℕ × TagMeta) → List ℕ → List (ℕ × TagMeta) → List (ℕ × TagMeta)
occupy_manual meta [] occupants = occupants
occupy_manual meta (tag ∷ rest) occupants = occupy_manual meta rest (elim (lookup tag meta) [
  | none ↦ occupants
  | some manual ↦
      if manual.mutex_group_id == 0
      then occupants
      else elim (lookup manual.mutex_group_id occupants) [
        | some _ ↦ occupants
        | none ↦ insert manual.mutex_group_id manual occupants
      ]
])

-- What the loop over the ordered rules carries.
pub record Progress (C : Type 0) : Type 0 where
  pub occupants : List (ℕ × TagMeta)
  pub applied : List (Rule C)
  pub shadowed : List ShadowNote

module _ {C : Type 0} where
  -- Higher priority first, and the lower tag id among equals.
  abbrev pub precedes : Rule C → Rule C → Bool
  precedes a b =
      if not (eq_ℤ a.priority b.priority)
      then ltb_ℤ b.priority a.priority
      else ltb a.tag_id b.tag_id

  abbrev pub shadow_note : List (ℕ × TagMeta) → Rule C → TagMeta → ShadowNote
  shadow_note by_hand r winner = record {
    tag_id = r.tag_id;
    tag_name = r.name;
    mutex_group_id = r.mutex_group_id;
    reason = elim (lookup r.mutex_group_id by_hand) [
      | none ↦ lower_priority
      | some _ ↦ manual_occupies_group
    ];
    winner_tag_id = winner.tag_id;
    winner_tag_name = winner.name;
  }

  -- A rule in a group: it is shadowed by the tag that holds the group, or it takes the group.
  unfoldable pub contend : List (ℕ × TagMeta) → Rule C → Option TagMeta → Progress C → Progress C
  contend by_hand r (some winner) p = record p {
    shadowed = p.shadowed ++ shadow_note by_hand r winner ∷ [];
  }
  contend by_hand r none p = record p {
    occupants = insert r.mutex_group_id r.meta p.occupants;
    applied = p.applied ++ r ∷ [];
  }

  unfoldable pub visit_rule : List (ℕ × TagMeta) → Rule C → Progress C → Progress C
  visit_rule by_hand r p =
      if r.mutex_group_id == 0
      then record p { applied = p.applied ++ r ∷ [] }
      else contend by_hand r (lookup r.mutex_group_id p.occupants) p

  unfoldable pub visit_rules : List (ℕ × TagMeta) → List (Rule C) → Progress C → Progress C
  visit_rules by_hand [] p = p
  visit_rules by_hand (r ∷ rest) p = visit_rules by_hand rest (visit_rule by_hand r p)

  unfoldable pub resolve_rules : List (Rule C) → List ℕ → List (ℕ × TagMeta) → Progress C
  resolve_rules matched manual meta =
      let by_hand = occupy_manual meta manual [] in
      visit_rules by_hand (sort_by precedes matched)
        (record { occupants = by_hand; applied = []; shadowed = [] })

  -- `sortByTagID` keeps each version beside its tag.
  unfoldable pub resolve : ℕ → List (Rule C) → List ℕ → List (ℕ × TagMeta) → Decision
  resolve node matched manual meta =
      let p = resolve_rules matched manual meta in
      record {
        node_id = node;
        assigned =
            sort_by (λ (a b : ℕ × ℕ). ltb a.0 b.0)
              (map (λ (r : Rule C). (r.tag_id, r.rule_version)) p.applied);
        shadowed = sort_by (λ (a b : ShadowNote). ltb a.tag_id b.tag_id) p.shadowed;
      }
