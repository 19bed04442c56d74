-- ===== src/Storage/Reload.antt =====
-- Reload of internal/storage/registry.go: the registry of a new configuration.
pub mod Laws
pub mod Kept
pub mod Promises
use omniflow_go.Prelude.{
  Bool, true, false, ◌&&◌, ◌||◌, not, Option, none, some, List, [], ◌∷◌, ◌++◌, map, if◌then◌else◌,
}
use omniflow_go.Text.{Text, eqb}
use omniflow_go.Result.{Error, Result, ok, err}
use omniflow_go.Storage.{ProviderConfig, StorageConfig, lookup, has_entry, validate}
use omniflow_go.Storage.Registry.{Registry, key}

abbrev pub bool_eqb : Bool → Bool → Bool
bool_eqb true b = b
bool_eqb false b = not b

-- The label and the public endpoint are not compared.
unfoldable pub provider_config_equal : ProviderConfig → ProviderConfig → Bool
provider_config_equal a b =
    eqb a.type b.type
    && eqb a.endpoint b.endpoint
    && eqb a.access_key b.access_key
    && eqb a.secret_key b.secret_key
    && bool_eqb a.use_ssl b.use_ssl
    && eqb a.bucket b.bucket
    && eqb a.region b.region

-- The instance that is taken over.
unfoldable pub reusable : {S C : Type 0} → Registry S C → Text → ProviderConfig → Option S
reusable r alias p = elim r.storage_cfg [
  | none ↦ none
  | some old ↦ elim (lookup alias old.providers) [
    | none ↦ none
    | some q ↦ if provider_config_equal q p then lookup alias r.providers else none
  ]
]

-- `oldCleanups[alias]`, nil for a missing key.
abbrev pub cleanup_of : {C : Type 0} → Text → List (Text × Option C) → Option C
cleanup_of alias m = elim (lookup alias m) [ none ↦ none | some c ↦ c ]

-- What has been made: an alias with its instance and its cleanup.
abbrev pub Made : Type 0 → Type 0 → Type 0
Made S C = List (Text × S × Option C)

-- The loop over the new providers: the error that ended it, or none, with what it has made.
unfoldable pub build :
    {S C : Type 0}
    → (Text → ProviderConfig → Result (S × Option C))
    → Registry S C
    → List (Text × ProviderConfig)
    → Made S C
    → Result (Unit {0}) × Made S C
unfolding reusable
build factory r [] made = (ok tt, made)
build factory r ((alias, p) ∷ rest) made = elim (reusable r alias p) [
  | some s ↦ build factory r rest (made ++ ((alias, s, cleanup_of alias r.cleanups) ∷ []))
  | none ↦ elim (factory alias p) [
    | err e ↦ (err e, made)
    | ok (s, c) ↦ build factory r rest (made ++ ((alias, s, c) ∷ []))
  ]
]

-- The functions that are not nil.
abbrev pub not_nil : {C : Type 0} → List (Option C) → List C
not_nil [] = []
not_nil (none ∷ cs) = not_nil cs
not_nil (some c ∷ cs) = c ∷ not_nil cs

abbrev pub made_cleanups : {S C : Type 0} → Made S C → List (Option C)
made_cleanups [] = []
made_cleanups ((k, s, c) ∷ ms) = c ∷ made_cleanups ms

abbrev pub made_providers : {S C : Type 0} → Made S C → List (Text × S)
made_providers [] = []
made_providers ((k, s, c) ∷ ms) = (k, s) ∷ made_providers ms

abbrev pub made_entries : {S C : Type 0} → Made S C → List (Text × Option C)
made_entries [] = []
made_entries ((k, s, c) ∷ ms) = (k, c) ∷ made_entries ms

-- The entries of the old cleanups whose alias is gone.
abbrev pub removed_entries :
    {S C : Type 0} → List (Text × S) → List (Text × Option C) → List (Text × Option C)
removed_entries providers [] = []
removed_entries providers ((k, c) ∷ m) =
    let rest = removed_entries providers m in if has_entry k providers then rest else (k, c) ∷ rest

abbrev pub values : {C : Type 0} → List (Text × Option C) → List (Option C)
values [] = []
values ((k, c) ∷ m) = c ∷ values m

-- The result, the registry afterwards, and the cleanup functions that were called, in their order.
unfoldable pub finish :
    {S C : Type 0}
    → StorageConfig
    → Registry S C
    → Result (Unit {0}) × Made S C
    → Result (List Text) × Registry S C × List C
finish cfg r (err e, made) = (err e, r, not_nil (made_cleanups made))
finish cfg r (ok done, made) =
    let gone = removed_entries (made_providers made) r.cleanups in
    (
      ok (map key gone),
      record {
        providers = made_providers made;
        cleanups = made_entries made;
        default_alias = cfg.default_provider;
        routing_rules = cfg.routing_rules;
        storage_cfg = some cfg;
      },
      not_nil (values gone),
    )

unfoldable pub reload :
    {S C : Type 0}
    → (Text → ProviderConfig → Result (S × Option C))
    → StorageConfig
    → Registry S C
    → Result (List Text) × Registry S C × List C
unfolding build finish validate
reload factory cfg r = elim (validate cfg) [
  | err e ↦ (err e, r, [])
  | ok done ↦ finish cfg r (build factory r cfg.providers [])
]

-- Close
unfoldable pub close : {S C : Type 0} → Registry S C → Registry S C × List C
close r = (record r { providers = []; cleanups = [] }, not_nil (values r.cleanups))
