-- ===== src/Facts/Standard.antt =====
-- Each field of the default registry has the operators of its kind.

use easy_proxies_v.Base.{
  All, Each, Each-insert, List, String, String_eq, [], if_cases, refl, ◌==◌, ◌∷◌, ◌≡◌,
}
use easy_proxies_v.Facts.Registry.{
  basic_fields, default_registry, diagnostic_fields, each_quality_provider, ip_fields,
  performance_fields, quality_provider_fields, reduced_fields, register_all, unlock_fields,
  unlock_provider_fields, with_ip_quality_providers, with_unlock_providers,
}
use easy_proxies_v.Facts.Schema.{
  Field, Registry, fields, new_registry, operators_for_kind, register, with_operators,
}

abbrev pub IsStandard : String → Field → Type 0
IsStandard name field = field.operators ≡ operators_for_kind field.kind

-- A field whose operators are left to `Register`.
abbrev pub IsPlain : Field → Type 0
IsPlain field = field.operators ≡ []

with_operators-IsStandard :
    (field : Field) → IsPlain field → IsStandard field.name (with_operators field)
with_operators-IsStandard field h = rw (with_operators, h) refl

register-IsStandard :
    (field : Field) (registry : Registry)
    → IsPlain field
    → Each IsStandard registry.fields
    → Each IsStandard (register field registry).fields
unfolding register
register-IsStandard field registry plain h =
    if_cases (λ (r : Registry). Each IsStandard r.fields) (field.name == "") _ _ (λ _. h)
      (λ _.
        Each-insert IsStandard field.name (with_operators field) registry.fields
          (with_operators-IsStandard field plain) h)

register_all-IsStandard :
    (fields : List Field) (registry : Registry)
    → All IsPlain fields
    → Each IsStandard registry.fields
    → Each IsStandard (register_all fields registry).fields
unfolding register_all
register_all-IsStandard [] registry plain h = h
register_all-IsStandard (field ∷ fields) registry plain h =
    register_all-IsStandard fields (register field registry) plain.1
      (register-IsStandard field registry plain.0 h)

module _ (append_text : String → String → String) where
  with_unlock_providers-IsStandard :
      (providers : List String) (registry : Registry)
      → Each IsStandard registry.fields
      → Each IsStandard (with_unlock_providers append_text providers registry).fields
  unfolding with_unlock_providers unlock_provider_fields
  with_unlock_providers-IsStandard [] registry h = h
  with_unlock_providers-IsStandard (provider ∷ providers) registry h =
      with_unlock_providers-IsStandard providers _ (
        register_all-IsStandard (unlock_provider_fields append_text provider) registry
          (refl, (refl, (refl, tt))) h)

  each_quality_provider-IsStandard :
      (providers : List String) (registry : Registry)
      → Each IsStandard registry.fields
      → Each IsStandard (each_quality_provider append_text providers registry).fields
  unfolding each_quality_provider quality_provider_fields
  each_quality_provider-IsStandard [] registry h = h
  each_quality_provider-IsStandard (provider ∷ providers) registry h =
      each_quality_provider-IsStandard providers _ (
        register_all-IsStandard (quality_provider_fields append_text provider) registry
          (refl, (refl, (refl, (refl, (refl, (refl, (refl, (refl, (refl, (refl, tt)))))))))) h)

  with_ip_quality_providers-IsStandard :
      (providers : List String) (registry : Registry)
      → Each IsStandard registry.fields
      → Each IsStandard (with_ip_quality_providers append_text providers registry).fields
  unfolding with_ip_quality_providers
  with_ip_quality_providers-IsStandard [] registry h =
      each_quality_provider-IsStandard [] registry h
  with_ip_quality_providers-IsStandard (provider ∷ providers) registry h =
      register_all-IsStandard (reduced_fields append_text) _
        (refl, (refl, (refl, (refl, (refl, (refl, (refl, (refl, (refl, tt)))))))))
        (each_quality_provider-IsStandard (provider ∷ providers) registry h)

  -- Whatever the providers are called, each field of the default registry has the operators of its
  -- kind.
  pub default_registry-IsStandard :
      (unlock quality : List String)
      → Each IsStandard (default_registry append_text unlock quality).fields
  unfolding default_registry
  default_registry-IsStandard unlock quality =
      let basic =
        register_all-IsStandard basic_fields new_registry
          (refl, (refl, (refl, (refl, (refl, (refl, (refl, (refl, (refl, (refl, tt)))))))))) tt in
      let performance =
        register_all-IsStandard performance_fields _
          (refl, (refl, (refl, (refl, (refl, (refl, (refl, tt))))))) basic in
      let ip =
        register_all-IsStandard ip_fields _
          (refl, (refl, (refl, (refl, (refl, (refl, (refl, (refl, (refl, tt))))))))) performance in
      let unlocking = register_all-IsStandard unlock_fields _ (refl, (refl, tt)) ip in
      let diagnostic =
        register_all-IsStandard diagnostic_fields _ (refl, (refl, (refl, tt))) unlocking in
      with_ip_quality_providers-IsStandard quality _
        (with_unlock_providers-IsStandard unlock _ diagnostic)
