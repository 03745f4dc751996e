-- ===== src/Facts/Registry.antt =====
-- internal/nodefacts/schema.go and diagnostic.go: the fields of `DefaultRegistry` and its options.
-- `append_text` is Go's `+` on strings. A map's or a table's rows are registered in its order.

use easy_proxies_v.Base.{Bool, List, String, [], false, true, ◌++◌, ◌∷◌}
use easy_proxies_v.Facts.Schema.{
  Field, Kind, Registry, fields, kind_bool, kind_enum, kind_int, kind_set, kind_string,
  new_registry, register,
}

-- A row of a table of fields: its name, group, kind and `SupportsMaxAge`.
abbrev pub row : String → String → Kind → Bool → Field
row name group kind supports_max_age = record {
  name = name;
  group = group;
  kind = kind;
  operators = [];
  supports_max_age = supports_max_age;
}

unfoldable pub register_all : List Field → Registry → Registry
register_all [] registry = registry
register_all (field ∷ fields) registry = register_all fields (register field registry)

abbrev pub group_basic : String
group_basic = "基础"

abbrev pub group_perf : String
group_perf = "性能"

abbrev pub group_ip : String
group_ip = "IP 质量"

abbrev pub group_unlock : String
group_unlock = "解锁"

abbrev pub group_sources : String
group_sources = "来源"

abbrev pub basic_fields : List Field
basic_fields =
    row "node.name" group_basic kind_string false
    ∷ row "node.region" group_basic kind_enum false
    ∷ row "node.country" group_basic kind_string false
    ∷ row "node.protocol" group_basic kind_enum false
    ∷ row "node.port" group_basic kind_int false
    ∷ row "node.enabled" group_basic kind_bool false
    ∷ row "node.source" group_basic kind_enum false
    ∷ row "tags.manual" group_basic kind_set false
    ∷ row "node.subscription_ids" group_sources kind_set false
    ∷ row "node.subscription_names" group_sources kind_set false
    ∷ []

abbrev pub performance_fields : List Field
performance_fields =
    row "latency_ms" group_perf kind_int true
    ∷ row "available" group_perf kind_bool true
    ∷ row "blacklisted" group_perf kind_bool false
    ∷ row "failure_count" group_perf kind_int false
    ∷ row "success_count" group_perf kind_int false
    ∷ row "speed_bps" group_perf kind_int true
    ∷ row "speed_peak_bps" group_perf kind_int true
    ∷ []

abbrev pub ip_fields : List Field
ip_fields =
    row "exit_country_code" group_ip kind_enum true
    ∷ row "exit_ip_family" group_ip kind_enum true
    ∷ row "unlock.ip.pure" group_ip kind_bool true
    ∷ row "unlock.ip.risk_level" group_ip kind_enum true
    ∷ row "unlock.ip.ip_type" group_ip kind_string true
    ∷ row "unlock.ip.usage_type" group_ip kind_string true
    ∷ row "unlock.ip.fraud_score" group_ip kind_int true
    ∷ row "unlock.ip.asn" group_ip kind_string true
    ∷ row "unlock.ip.org" group_ip kind_string true
    ∷ []

abbrev pub unlock_fields : List Field
unlock_fields =
    row "unlock.unlocked_count" group_unlock kind_int true
    ∷ row "unlock.unlocked_providers" group_unlock kind_set true
    ∷ []

abbrev pub diagnostic_fields : List Field
diagnostic_fields =
    row "unlock.state" group_unlock kind_string true
    ∷ row "speed.status" group_perf kind_string true
    ∷ row "ipq.statuses" group_ip kind_set true
    ∷ []

module _ (append_text : String → String → String) where
  -- "unlock." + provider + "." + attribute
  abbrev pub unlock_field : String → String → String
  unlock_field provider attribute =
      append_text (append_text (append_text "unlock." provider) ".") attribute

  abbrev pub ip_quality_field : String → String → String
  ip_quality_field provider attribute =
      append_text (append_text (append_text "ipq." provider) ".") attribute

  unfoldable pub unlock_provider_fields : String → List Field
  unlock_provider_fields provider =
      row (unlock_field provider "status") group_unlock kind_enum true
      ∷ row (unlock_field provider "region") group_unlock kind_string true
      ∷ row (unlock_field provider "detail") group_unlock kind_string true
      ∷ []

  unfoldable pub quality_provider_fields : String → List Field
  quality_provider_fields provider =
      row (ip_quality_field provider "fraud_score") group_ip kind_int true
      ∷ row (ip_quality_field provider "is_residential") group_ip kind_bool true
      ∷ row (ip_quality_field provider "proxy") group_ip kind_bool true
      ∷ row (ip_quality_field provider "hosting") group_ip kind_bool true
      ∷ row (ip_quality_field provider "mobile") group_ip kind_bool true
      ∷ row (ip_quality_field provider "is_broadcast") group_ip kind_bool true
      ∷ row (ip_quality_field provider "asn") group_ip kind_string true
      ∷ row (ip_quality_field provider "org") group_ip kind_string true
      ∷ row (ip_quality_field provider "isp") group_ip kind_string true
      ∷ row (ip_quality_field provider "country_code") group_ip kind_enum true
      ∷ []

  abbrev pub reductions_of : String → List Field
  reductions_of attribute =
      row (ip_quality_field "any" attribute) group_ip kind_bool true
      ∷ row (ip_quality_field "all" attribute) group_ip kind_bool true
      ∷ []

  abbrev pub reduced_fields : List Field
  reduced_fields =
      row "ipq.max.fraud_score" group_ip kind_int true
      ∷ (reductions_of "is_residential"
          ++ (reductions_of "is_broadcast" ++ (reductions_of "proxy" ++ reductions_of "hosting")))

  unfoldable pub with_unlock_providers : List String → Registry → Registry
  with_unlock_providers [] registry = registry
  with_unlock_providers (provider ∷ providers) registry =
      with_unlock_providers providers (register_all (unlock_provider_fields provider) registry)

  unfoldable pub each_quality_provider : List String → Registry → Registry
  each_quality_provider [] registry = registry
  each_quality_provider (provider ∷ providers) registry =
      each_quality_provider providers (register_all (quality_provider_fields provider) registry)

  -- The reductions are registered only where there is a provider.
  unfoldable pub with_ip_quality_providers : List String → Registry → Registry
  with_ip_quality_providers providers registry =
      let each = each_quality_provider providers registry in
      elim providers [ [] ↦ each | _ ∷ _ ↦ register_all reduced_fields each ]

  -- `DefaultRegistry` with both options.
  unfoldable pub default_registry : List String → List String → Registry
  default_registry unlock quality = with_ip_quality_providers quality (
      with_unlock_providers unlock (
        register_all diagnostic_fields (
          register_all unlock_fields (
            register_all ip_fields
              (register_all performance_fields (register_all basic_fields new_registry))))))
