-- ===== src/Storage/Registry.antt =====
-- StorageRegistry of internal/storage/registry.go: the lookups. A provider instance and its cleanup
-- function are values of types that the registry does not look into.
use omniflow_go.Prelude.{ℕ, not, Option, none, some, List, [], ◌∷◌, map, if◌then◌else◌}
use omniflow_go.Text.{Text, eqb, is_empty, trim_space, sort_texts}
use omniflow_go.Result.{Result, ok, err, guard, ◌>>=◌, ◌>>◌, provider_unknown}
use omniflow_go.Storage.{Letters, ProviderConfig, RoutingRule, StorageConfig, lookup}
use omniflow_go.Storage.Routing.{equal_fold, match_routing_rules}

abbrev pub key {ℓ} : {A : Type ℓ} → Text × A → Text
key (k, a) = k

-- `storage_cfg` is `none` for nil. An entry of `cleanups` is `none` for a nil function.
pub record Registry (S C : Type 0) : Type 0 where
  pub providers : List (Text × S)
  pub cleanups : List (Text × Option C)
  pub default_alias : Text
  pub routing_rules : List RoutingRule
  pub storage_cfg : Option StorageConfig

-- NewStorageRegistry
abbrev pub empty : {S C : Type 0} → Registry S C
empty = record {
  providers = [];
  cleanups = [];
  default_alias = [];
  routing_rules = [];
  storage_cfg = none;
}

-- sortedProviderAliases and sortedObjectStorageAliases
unfoldable pub sorted_aliases {ℓ} : {A : Type ℓ} → List (Text × A) → List Text
unfolding sort_texts
sorted_aliases m = sort_texts (map key m)

-- The entry of the first of these aliases that is `lower` in lower case.
unfoldable pub lookup_lower {ℓ} :
    {A : Type ℓ} → Letters → Text → List Text → List (Text × A) → Option (Text × A)
lookup_lower l lower [] m = none
lookup_lower l lower (k ∷ ks) m =
    if eqb (map l.to_lower k) lower
    then elim (lookup k m) [ none ↦ lookup_lower l lower ks m | some a ↦ some (k, a) ]
    else lookup_lower l lower ks m

-- The loop of Get over the configured providers of a type, with what has matched so far.
unfoldable pub typed_store :
    {S : Type 0}
    → Letters
    → Text
    → List Text
    → List (Text × ProviderConfig)
    → List (Text × S)
    → Text
    → Option S
    → Result (Option S)
unfolding equal_fold
typed_store l alias [] configs providers matched store = ok store
typed_store l alias (k ∷ ks) configs providers matched store = elim (lookup k configs) [
  | none ↦ typed_store l alias ks configs providers matched store
  | some c ↦
      if not (equal_fold l c.type alias)
      then typed_store l alias ks configs providers matched store
      else elim (lookup k providers) [
        | none ↦ typed_store l alias ks configs providers matched store
        | some s ↦
            if not (is_empty matched)
            then err provider_unknown
            else typed_store l alias ks configs providers k (some s)
      ]
]

-- The part of Get behind the two lookups by name.
unfoldable pub get_typed : {S C : Type 0} → Letters → Registry S C → Text → Result S
unfolding typed_store sorted_aliases
get_typed l r alias = elim r.storage_cfg [
  | none ↦ err provider_unknown
  | some c ↦
      typed_store l alias (sorted_aliases c.providers) c.providers r.providers [] none >>= λ store.
      elim store [ none ↦ err provider_unknown | some s ↦ ok s ]
]

unfoldable pub get : {S C : Type 0} → Letters → Registry S C → Text → Result S
unfolding get_typed lookup_lower sorted_aliases
get l r alias = elim (lookup alias r.providers) [
  | some s ↦ ok s
  | none ↦ elim (lookup_lower l (map l.to_lower alias) (sorted_aliases r.providers) r.providers) [
    | some (k, s) ↦ ok s
    | none ↦ get_typed l r alias
  ]
]

-- The loop of ProviderConfigByAlias over the configured providers of a type.
unfoldable pub typed_config :
    Letters
    → Text
    → List Text
    → List (Text × ProviderConfig)
    → Option (Text × ProviderConfig)
    → Option (Text × ProviderConfig)
unfolding equal_fold
typed_config l alias [] configs matched = matched
typed_config l alias (k ∷ ks) configs matched = elim (lookup k configs) [
  | none ↦ typed_config l alias ks configs matched
  | some c ↦
      if not (equal_fold l c.type alias)
      then typed_config l alias ks configs matched
      else elim matched [
        | some m ↦ if is_empty (key m) then typed_config l alias ks configs (some (k, c)) else none
        | none ↦ typed_config l alias ks configs (some (k, c))
      ]
]

-- `if matchedAlias == "" { return ..., false }`
abbrev pub matched_entry : Option (Text × ProviderConfig) → Option (Text × ProviderConfig)
matched_entry none = none
matched_entry (some (k, c)) = if is_empty k then none else some (k, c)

-- ProviderConfigByAlias
unfoldable pub provider_config_by_alias :
    {S C : Type 0} → Letters → Registry S C → Text → Option (Text × ProviderConfig)
unfolding lookup_lower sorted_aliases typed_config
provider_config_by_alias l r alias = elim r.storage_cfg [
  | none ↦ none
  | some c ↦ elim (lookup alias c.providers) [
    | some p ↦ some (alias, p)
    | none ↦
        let lower = map l.to_lower (trim_space alias) in
        if is_empty lower
        then none
        else elim (lookup_lower l lower (sorted_aliases c.providers) c.providers) [
          | some (k, p) ↦ some (k, p)
          | none ↦
              matched_entry (typed_config l alias (sorted_aliases c.providers) c.providers none)
        ]
  ]
]

-- The part that Default and Resolve share.
unfoldable pub get_named : {S C : Type 0} → Letters → Registry S C → Text → Result (S × Text)
unfolding get
get_named l r alias = do
  guard (not (is_empty alias)) provider_unknown
  s ← get l r alias
  ok (s, alias)

-- Default
unfoldable pub get_default : {S C : Type 0} → Letters → Registry S C → Result (S × Text)
unfolding get_named
get_default l r = get_named l r r.default_alias

abbrev pub or_default : Text → Text → Text
or_default alias fallback = if is_empty alias then fallback else alias

unfoldable pub resolve :
    {S C : Type 0} → Letters → Registry S C → ℕ → Text → Text → Result (S × Text)
unfolding get_named
resolve l r file_size ext mime =
    get_named l r
      (or_default (match_routing_rules l r.routing_rules file_size ext mime) r.default_alias)

-- ProviderType. The loop takes the aliases in the order of the map.
unfoldable pub provider_type : {S C : Type 0} → Letters → Registry S C → Text → Text
unfolding lookup_lower
provider_type l r alias = elim r.storage_cfg [
  | none ↦ map l.to_upper alias
  | some c ↦ elim (lookup alias c.providers) [
    | some p ↦ map l.to_upper (trim_space p.type)
    | none ↦ elim (lookup_lower l (map l.to_lower alias) (map key c.providers) c.providers) [
      | some (k, p) ↦ map l.to_upper (trim_space p.type)
      | none ↦ map l.to_upper alias
    ]
  ]
]
