-- ===== src/Tests/Storages.antt =====
-- A registry with one provider that is reloaded with two, well and badly.
use omniflow_go.Prelude.{
  ◌↔◌, Elem, ℕ, ◌≡◌, refl, false, Option, some, List, [], ◌∷◌, ◌++◌, map, All, ◌⊎◌,
}
use omniflow_go.Text.{Text, codes, eqb, trim_space, trim_dot}
use omniflow_go.Result.{Result, ok, err, other}
use omniflow_go.Storage.{Letters, ProviderConfig, RoutingRule, StorageConfig, lookup}
use omniflow_go.Storage.Routing.{Accepts, match_routing_rules, match_routing_rules_first}
use omniflow_go.Storage.Registry.{Registry, key, or_default, resolve}
use omniflow_go.Storage.Reload.{provider_config_equal, reload}
use omniflow_go.Storage.Reload.Promises.{reload_resolves, reload_keeps}
use omniflow_go.Storage.Reload.Kept.{IsSameProvider}

abbrev letters : Letters
letters = record { to_lower = λ c. c; to_upper = λ c. c; fold = λ c. c }

abbrev provider : Text → ProviderConfig
provider endpoint = record {
  type = codes "minio";
  endpoint = endpoint;
  public_endpoint = [];
  access_key = [];
  secret_key = [];
  use_ssl = false;
  bucket = codes "b";
  region = [];
  label = [];
}

-- Files from 100 bytes on go to "cold".
abbrev big_files : RoutingRule
big_files = record {
  name = [];
  conditions = record {
    min_file_size_bytes = 100;
    max_file_size_bytes = 0;
    extensions = [];
    mime_prefixes = [];
  };
  target_provider = codes "cold";
}

abbrev old_config : StorageConfig
old_config = record {
  providers = (codes "hot", provider (codes "h")) ∷ [];
  default_provider = codes "hot";
  routing_rules = [];
}

abbrev new_config : StorageConfig
new_config = record {
  providers = (codes "hot", provider (codes "h")) ∷ (codes "cold", provider (codes "c")) ∷ [];
  default_provider = codes "hot";
  routing_rules = big_files ∷ [];
}

-- Instances and cleanups are numbers.
abbrev old_registry : Registry ℕ ℕ
old_registry = record {
  providers = (codes "hot", 1) ∷ [];
  cleanups = (codes "hot", some 11) ∷ [];
  default_alias = codes "hot";
  routing_rules = [];
  storage_cfg = some old_config;
}

abbrev makes : Text → ProviderConfig → Result (ℕ × Option ℕ)
makes alias p = ok (2, some 12)

abbrev fails : Text → ProviderConfig → Result (ℕ × Option ℕ)
fails alias p = err (other 7)

abbrev new_registry : Registry ℕ ℕ
new_registry = record {
  providers = (codes "hot", 1) ∷ (codes "cold", 2) ∷ [];
  cleanups = (codes "hot", some 11) ∷ (codes "cold", some 12) ∷ [];
  default_alias = codes "hot";
  routing_rules = big_files ∷ [];
  storage_cfg = some new_config;
}

reloads : reload makes new_config old_registry ≡ (ok [], new_registry, [])
unfolding reload provider_config_equal eqb trim_space
reloads = refl

reload_resolves_example :
    let alias = or_default (match_routing_rules letters (big_files ∷ []) 500 [] []) (codes "hot") in
    (s : ℕ) × (lookup alias new_registry.providers ≡ some s)
    × (resolve letters new_registry 500 [] [] ≡ ok (s, alias))
reload_resolves_example =
    reload_resolves makes letters new_config old_registry new_registry [] [] reloads 500 [] []

goes_cold : resolve letters new_registry 500 [] [] ≡ ok (2, codes "cold")
unfolding resolve match_routing_rules trim_dot trim_space eqb
goes_cold = refl

reload_keeps_example :
    ((close : ℕ)
      → Elem close [] ↔ (
          (alias : Text) × Elem (alias, some close) old_registry.cleanups
          × ¬ Elem alias (map key new_config.providers)))
    × ((alias : Text)
        → Elem alias [] ↔ (
            Elem alias (map key old_registry.cleanups)
            × ¬ Elem alias (map key new_config.providers)))
    × ((alias : Text) (old : StorageConfig) (p q : ProviderConfig) (s : ℕ)
        → old_registry.storage_cfg ≡ some old
        → lookup alias old.providers ≡ some q
        → lookup alias new_config.providers ≡ some p
        → IsSameProvider q p
        → lookup alias old_registry.providers ≡ some s
        → lookup alias new_registry.providers ≡ some s)
unfolding eqb
reload_keeps_example =
    reload_keeps makes new_config old_registry new_registry [] [] (refl, (refl, tt)) reloads

-- A Reload that cannot create the second provider has called the cleanup of the first one, which the
-- registry still gives out.
closes : reload fails new_config old_registry ≡ (err (other 7), old_registry, 11 ∷ [])
unfolding reload provider_config_equal eqb trim_space
closes = refl

match_routing_rules_first_example :
    let rules = big_files ∷ [] in
    ((match_routing_rules letters rules 500 (codes ".png") [] ≡ [])
      × All (λ r. ¬ Accepts letters r.conditions 500 (codes "png") []) rules)
    ⊎ ((skipped : List RoutingRule) × (rule : RoutingRule) × (rest : List RoutingRule) × (rules
          ≡ skipped ++ (rule ∷ rest))
        × All (λ r. ¬ Accepts letters r.conditions 500 (codes "png") []) skipped
        × Accepts letters rule.conditions 500 (codes "png") []
        × (match_routing_rules letters rules 500 (codes ".png") [] ≡ rule.target_provider))
unfolding trim_dot trim_space
match_routing_rules_first_example =
    match_routing_rules_first letters (big_files ∷ []) 500 (codes ".png") []
