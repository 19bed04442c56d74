-- ===== src/Storage.antt =====
-- Storage providers: the configuration (internal/config/storage_config.go), the routing rules
-- (internal/storage/routing.go) and the registry (internal/storage/registry.go). A Go map is a list
-- of its entries in the order in which a `range` over it visits them, which Go leaves open.
pub mod Routing
pub mod Registry
pub mod Reload
use omniflow_go.Prelude.{
  ℕ, Bool, true, false, ◌&&◌, not, Option, none, some, List, [], ◌∷◌, ◌++◌, map, ltb, if◌then◌else◌,
  is_nil,
}
use omniflow_go.Text.{Text, eqb, is_empty, trim_space, trim_dot}
use omniflow_go.Result.{Error, Result, ok, err, guard, ◌>>=◌, ◌>>◌, storage_config_invalid}

-- unicode.ToLower, unicode.ToUpper, and the least rune of the orbit of unicode.SimpleFold.
pub record Letters : Type 0 where
  pub to_lower : ℕ → ℕ
  pub to_upper : ℕ → ℕ
  pub fold : ℕ → ℕ

pub record ProviderConfig : Type 0 where
  pub type : Text
  pub endpoint : Text
  pub public_endpoint : Text
  pub access_key : Text
  pub secret_key : Text
  pub use_ssl : Bool
  pub bucket : Text
  pub region : Text
  pub label : Text

-- A bound that is not positive sets no limit: it is 0 here.
pub record RuleConditions : Type 0 where
  pub min_file_size_bytes : ℕ
  pub max_file_size_bytes : ℕ
  pub extensions : List Text
  pub mime_prefixes : List Text

pub record RoutingRule : Type 0 where
  pub name : Text
  pub conditions : RuleConditions
  pub target_provider : Text

pub record StorageConfig : Type 0 where
  pub providers : List (Text × ProviderConfig)
  pub default_provider : Text
  pub routing_rules : List RoutingRule

-- `m[key]` with its second result.
abbrev pub lookup {ℓ} : {A : Type ℓ} → Text → List (Text × A) → Option A
lookup key [] = none
lookup key ((k, a) ∷ m) = if eqb k key then some a else lookup key m

abbrev pub has_entry {ℓ} : {A : Type ℓ} → Text → List (Text × A) → Bool
has_entry key [] = false
has_entry key ((k, a) ∷ m) = if eqb k key then true else has_entry key m

unfoldable pub is_blank : Text → Bool
is_blank t = is_empty (trim_space t)

-- The loops of Validate over the providers and over the rules.
unfoldable pub validate_providers : List (Text × ProviderConfig) → Result (Unit {0})
unfolding is_blank
validate_providers [] = ok tt
validate_providers ((alias, p) ∷ rest) = do
  guard (not (is_blank alias)) storage_config_invalid
  guard (not (is_blank p.type)) storage_config_invalid
  guard (not (is_blank p.endpoint)) storage_config_invalid
  guard (not (is_blank p.bucket)) storage_config_invalid
  validate_providers rest

unfoldable pub validate_rules : List (Text × ProviderConfig) → List RoutingRule → Result (Unit {0})
unfolding is_blank
validate_rules providers [] = ok tt
validate_rules providers (rule ∷ rest) = do
  guard (not (is_blank rule.target_provider)) storage_config_invalid
  guard (has_entry rule.target_provider providers) storage_config_invalid
  validate_rules providers rest

unfoldable pub validate : StorageConfig → Result (Unit {0})
unfolding validate_providers validate_rules
validate c = do
  guard (not (is_nil c.providers)) storage_config_invalid
  guard (not (is_empty c.default_provider)) storage_config_invalid
  guard (has_entry c.default_provider c.providers) storage_config_invalid
  validate_providers c.providers
  validate_rules c.providers c.routing_rules
