-- ===== src/Storage/Reload/Promises.antt =====
-- Reload as a whole: what a client of the registry has afterwards.
use omniflow_go.Prelude.{
  is_nil, ℕ, ◌↔◌, subst, ◌≡◌, refl, sym, ap, ◌∙◌, inl, inr, true, false, not, Option, some, List,
  [], ◌∷◌, map, arith, Elem,
}
use omniflow_go.Text.{Text, contains, is_empty, trim_space}
use omniflow_go.Result.{Result, ok, err, >>=-eq-ok, guard-eq-ok, Result-cases}
use omniflow_go.Storage.{
  Letters, ProviderConfig, RoutingRule, StorageConfig, lookup, has_entry, is_blank,
  validate_providers, validate_rules, validate,
}
use omniflow_go.Storage.Routing.{match_routing_rules, match_routing_rules-Elem}
use omniflow_go.Storage.Registry.{Registry, key, get, get_named, or_default, resolve}
use omniflow_go.Storage.Reload.{
  Made, build, not_nil, values, made_providers, removed_entries, finish, reload,
}
use omniflow_go.Storage.Reload.Kept.{IsSameProvider, reusable_same, calls_iff, gone_iff}
use omniflow_go.Storage.Reload.Laws.{
  has_entry-contains, lookup-has_entry, IsMap, build_keys, build_reuses,
}

-- What Validate asks of the alias of a rule or of the default.
abbrev HasProvider : StorageConfig → Text → Type 0
HasProvider c alias = (is_empty alias ≡ false) × (has_entry alias c.providers ≡ true)

blank_empty : (t : Text) → is_blank t ≡ false → is_empty t ≡ false
unfolding is_blank trim_space
blank_empty [] h = ground arith
blank_empty (x ∷ xs) h = refl

rules_lem :
    (providers : List (Text × ProviderConfig)) (rules : List RoutingRule) (rule : RoutingRule)
    → validate_rules providers rules ≡ ok tt
    → Elem rule rules
    → (is_empty rule.target_provider ≡ false) × (has_entry rule.target_provider providers ≡ true)
unfolding validate_rules
rules_lem providers [] rule h m = absurd m
rules_lem providers (q ∷ qs) rule h m =
    let (a, h₁) = guard-eq-ok (not (is_blank q.target_provider)) _ _ h in
    let (b, h₂) = guard-eq-ok (has_entry q.target_provider providers) _ _ h₁ in
    elim m [
      | inl e ↦ rw e (blank_empty q.target_provider (ground arith), b)
      | inr n ↦ rules_lem providers qs rule h₂ n
    ]

validate_lem :
    (c : StorageConfig)
    → validate c ≡ ok tt
    → HasProvider c c.default_provider
      × ((rule : RoutingRule) → Elem rule c.routing_rules → HasProvider c rule.target_provider)
unfolding validate
validate_lem c h =
    let (_, h₁) = guard-eq-ok (not (is_nil c.providers)) _ _ h in
    let (a, h₂) = guard-eq-ok (not (is_empty c.default_provider)) _ _ h₁ in
    let (b, h₃) = guard-eq-ok (has_entry c.default_provider c.providers) _ _ h₂ in
    let (_, _, h₄) = >>=-eq-ok (validate_providers c.providers) _ h₃ in
    ((ground arith, b), λ rule m. rules_lem c.providers c.routing_rules rule h₄ m)

module _ {S C : Type 0} (factory : Text → ProviderConfig → Result (S × Option C)) where
  -- A reload that ends well has validated the configuration and built all providers.
  reload_inv :
      (c : StorageConfig) (r r' : Registry S C) (gone : List Text) (calls : List C)
      → reload factory c r ≡ (ok gone, r', calls)
      → (validate c ≡ ok tt)
        × ((out : Made S C) × (build factory r c.providers [] ≡ (ok tt, out))
            × (finish c r (ok tt, out) ≡ (ok gone, r', calls)))
  unfolding reload
  reload_inv c r r' gone calls h = elim (Result-cases (validate c)) [
    | inr (e, v) ↦ let h' = rw (v, reload) at h in absurd (ground (arith, ap (λ p. p.0) h'))
    | inl (tt, v) ↦ (v, built (build factory r c.providers []) refl (rw (v, reload) at h))
  ]
    where
      built :
          (b : Result (Unit {0}) × Made S C)
          → build factory r c.providers [] ≡ b
          → finish c r b ≡ (ok gone, r', calls)
          → (out : Made S C) × (build factory r c.providers [] ≡ (ok tt, out))
            × (finish c r (ok tt, out) ≡ (ok gone, r', calls))
      built (ok tt, out) e g = (out, e, g)
      built (err x, out) e g = absurd (unfold finish in ground (arith, ap (λ p. p.0) g))

  finish_parts :
      (c : StorageConfig) (r r' : Registry S C) (out : Made S C) (gone : List Text) (calls : List C)
      → finish c r (ok tt, out) ≡ (ok gone, r', calls)
      → (r'.providers ≡ made_providers out)
        × (r'.default_alias ≡ c.default_provider)
        × (r'.routing_rules ≡ c.routing_rules)
        × (gone ≡ map key (removed_entries (made_providers out) r.cleanups))
        × (calls ≡ not_nil (values (removed_entries (made_providers out) r.cleanups)))
  unfolding finish
  finish_parts c r r' out gone calls h = ground arith

  chosen :
      (l : Letters) (c : StorageConfig) (file_size : ℕ) (ext mime : Text)
      → validate c ≡ ok tt
      → HasProvider c
          (or_default (match_routing_rules l c.routing_rules file_size ext mime) c.default_provider)
  chosen l c n ext mime v =
      let (standard, rules) = validate_lem c v in
      elim (match_routing_rules-Elem l c.routing_rules n ext mime) [
        | inl e ↦ rw e standard
        | inr (rule, m, e) ↦ let p = rules rule m in rw (e, p.0) p
      ]

  resolve_alias :
      (l : Letters) (r : Registry S C) (alias : Text) (s : S)
      → is_empty alias ≡ false
      → lookup alias r.providers ≡ some s
      → get_named l r alias ≡ ok (s, alias)
  unfolding get_named
  resolve_alias l r alias s full e = rw (get_named, full, get, e) refl

  resolve_lem :
      (l : Letters) (r : Registry S C) (file_size : ℕ) (ext mime alias : Text) (s : S)
      → or_default (match_routing_rules l r.routing_rules file_size ext mime) r.default_alias
        ≡ alias
      → is_empty alias ≡ false
      → lookup alias r.providers ≡ some s
      → resolve l r file_size ext mime ≡ ok (s, alias)
  unfolding resolve
  resolve_lem l r n ext mime alias s same full e =
      resolve_alias l r
        (or_default (match_routing_rules l r.routing_rules n ext mime) r.default_alias) s
        (rw same full) (rw same e)
      ∙ ap (λ t. ok (s, t)) same

  -- After a Reload that returns no error, Resolve finds an instance for every file, whatever its size,
  -- extension and type: the one under the alias that the rules give, or else the default alias.
  pub reload_resolves :
      (l : Letters) (c : StorageConfig) (r r' : Registry S C) (gone : List Text) (calls : List C)
      → reload factory c r ≡ (ok gone, r', calls)
      → (file_size : ℕ) (ext mime : Text)
      → let alias =
          or_default
            (match_routing_rules l c.routing_rules file_size ext mime)
            c.default_provider in
        (s : S) × (lookup alias r'.providers ≡ some s)
        × (resolve l r' file_size ext mime ≡ ok (s, alias))
  reload_resolves l c r r' gone calls h n ext mime =
      let (v, (out, b, f)) = reload_inv c r r' gone calls h in
      let (p, d, rules, _, _) = finish_parts c r r' out gone calls f in
      let (full, entry) = chosen l c n ext mime v in
      let alias =
        or_default (match_routing_rules l c.routing_rules n ext mime) c.default_provider in
      let keys : map key r'.providers ≡ map key c.providers =
        ap (map key) p ∙ build_keys factory r c.providers [] out b in
      let here : has_entry alias r'.providers ≡ true =
        has_entry-contains alias r'.providers
        ∙ ap (λ ks. contains ks alias) keys
        ∙ sym (has_entry-contains alias c.providers)
        ∙ entry in
      let (s, e) = lookup-has_entry alias r'.providers here in
      (s, e, resolve_lem l r' n ext mime alias s (rw (rules, d) refl) full e)

  removed-contains :
      {A B : Type 0} (m : List (Text × A)) (n : List (Text × B)) (cs : List (Text × Option C))
      → map key m ≡ map key n
      → removed_entries m cs ≡ removed_entries n cs
  removed-contains m n [] e = refl
  removed-contains m n ((k, c) ∷ cs) e =
      let same : has_entry k m ≡ has_entry k n =
        has_entry-contains k m ∙ ap (λ ks. contains ks k) e ∙ sym (has_entry-contains k n) in
      rw (same, removed-contains m n cs e) refl

  -- A Reload that returns no error calls just the cleanups that the old registry has under aliases
  -- that the new configuration does not have, and reports just those aliases; each alias that has an
  -- instance and whose old and new configurations agree in what provider_config_equal compares keeps
  -- its instance. The aliases of the new configuration are distinct.
  pub reload_keeps :
      (c : StorageConfig) (r r' : Registry S C) (gone : List Text) (calls : List C)
      → IsMap c.providers
      → reload factory c r ≡ (ok gone, r', calls)
      → ((close : C)
          → Elem close calls ↔ (
              (alias : Text) × Elem (alias, some close) r.cleanups
              × ¬ Elem alias (map key c.providers)))
        × ((alias : Text)
            → Elem alias gone
              ↔ (Elem alias (map key r.cleanups) × ¬ Elem alias (map key c.providers)))
        × ((alias : Text) (old : StorageConfig) (p q : ProviderConfig) (s : S)
            → r.storage_cfg ≡ some old
            → lookup alias old.providers ≡ some q
            → lookup alias c.providers ≡ some p
            → IsSameProvider q p
            → lookup alias r.providers ≡ some s
            → lookup alias r'.providers ≡ some s)
  reload_keeps c r r' gone calls unique h =
      let (v, (out, b, f)) = reload_inv c r r' gone calls h in
      let (p, _, _, g, k) = finish_parts c r r' out gone calls f in
      let same =
        removed-contains (made_providers out) c.providers r.cleanups
          (build_keys factory r c.providers [] out b) in
      (
        λ close.
            subst
              (λ l. Elem close l ↔ (
                (alias : Text) × Elem (alias, some close) r.cleanups
                × ¬ Elem alias (map key c.providers)))
              (sym (k ∙ ap (λ m. not_nil (values m)) same))
              (calls_iff c.providers r.cleanups close),
        λ alias.
            subst
              (λ l.
                Elem alias l
                ↔ (Elem alias (map key r.cleanups) × ¬ Elem alias (map key c.providers)))
              (sym (g ∙ ap (map key) same)) (gone_iff c.providers r.cleanups alias),
        λ alias old q' q s stored found wanted equal has. rw p (
            build_reuses factory r c.providers [] out unique b (λ j n. refl) alias q' s wanted
              (reusable_same r alias old q' q s stored found equal has)),
      )
