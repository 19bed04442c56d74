-- ===== src/Storage/Reload/Laws.antt =====
-- What a reloaded registry promises, and whom it closes.
use omniflow_go.Prelude.{
  ◌≡◌, refl, sym, ap, ◌∙◌, inl, inr, true, false, Option, some, List, [], ◌∷◌, ◌++◌, map, arith,
  Bool-cases, Option-cases,
}
use mathlib.Core.List.{append-nil}
use omniflow_go.Text.{Text, eqb, contains}
use omniflow_go.Text.Laws.{eqb_refl, eqb→≡}
use omniflow_go.Result.{Result, ok, Result-cases}
use omniflow_go.Storage.{ProviderConfig, lookup, has_entry}
use omniflow_go.Storage.Registry.{Registry, key}
use omniflow_go.Storage.Reload.{Made, reusable, cleanup_of, build, made_providers}

module _ {ℓ} {A : Type ℓ} where
  pub has_entry-contains : (k : Text) (m : List (Text × A)) → has_entry k m ≡ contains (map key m) k
  unfolding contains
  has_entry-contains k [] = refl
  has_entry-contains k ((j, a) ∷ m) = elim (Bool-cases (eqb j k)) [
    | inl b ↦ rw b refl
    | inr b ↦ rw b (has_entry-contains k m)
  ]

  pub lookup-has_entry :
      (k : Text) (m : List (Text × A)) → has_entry k m ≡ true → (a : A) × (lookup k m ≡ some a)
  lookup-has_entry k [] h = absurd (ground arith)
  lookup-has_entry k ((j, a) ∷ m) h = elim (Bool-cases (eqb j k)) [
    | inl b ↦ (a, rw b refl)
    | inr b ↦ rw b (lookup-has_entry k m (rw b at h))
  ]

  lookup-append_other :
      (k j : Text) (a : A) (m : List (Text × A))
      → eqb j k ≡ false
      → lookup k (m ++ ((j, a) ∷ [])) ≡ lookup k m
  lookup-append_other k j a [] h = rw h refl
  lookup-append_other k j a ((i, b) ∷ m) h = elim (Bool-cases (eqb i k)) [
    | inl c ↦ rw c refl
    | inr c ↦ rw c (lookup-append_other k j a m h)
  ]

  lookup-append_last :
      (k : Text) (a : A) (m : List (Text × A))
      → has_entry k m ≡ false
      → lookup k (m ++ ((k, a) ∷ [])) ≡ some a
  lookup-append_last k a [] h = rw (eqb_refl k) refl
  lookup-append_last k a ((i, b) ∷ m) h = elim (Bool-cases (eqb i k)) [
    | inl c ↦ absurd (ground arith)
    | inr c ↦ rw c (lookup-append_last k a m (rw c at h))
  ]

keys-append :
    {S : Type 0} (m : List (Text × S)) (k : Text) (s : S) (ks : List Text)
    → map key (m ++ ((k, s) ∷ [])) ++ ks ≡ map key m ++ (k ∷ ks)
keys-append [] k s ks = refl
keys-append ((j, t) ∷ m) k s ks = ap (λ r. j ∷ r) (keys-append m k s ks)

module _ {S : Type 0} where
  fresh_append :
      (i j : Text) (s : S) (m : List (Text × S))
      → has_entry i m ≡ false
      → eqb j i ≡ false
      → has_entry i (m ++ ((j, s) ∷ [])) ≡ false
  fresh_append i j s [] h e = ground arith
  fresh_append i j s ((k, t) ∷ m) h e = ground (arith, fresh_append i j s m)

has_tail :
    (i j : Text) (q : ProviderConfig) (ps : List (Text × ProviderConfig))
    → has_entry i ps ≡ true
    → has_entry i ((j, q) ∷ ps) ≡ true
has_tail i j q ps h = ground arith

apart :
    (i j : Text) (ps : List (Text × ProviderConfig))
    → has_entry i ps ≡ true
    → has_entry j ps ≡ false
    → eqb j i ≡ false
apart i j ps h n = elim (Bool-cases (eqb j i)) [
  | inl e ↦ let same = eqb→≡ j i e in absurd (ground (arith, rw same at n))
  | inr e ↦ e
]

-- One entry to an alias.
abbrev pub IsMap : List (Text × ProviderConfig) → Type 0
IsMap [] = Unit
IsMap ((k, p) ∷ ps) = (has_entry k ps ≡ false) × IsMap ps

module _ {S C : Type 0} where
  made_providers-append :
      (m : Made S C) (k : Text) (s : S) (c : Option C)
      → made_providers (m ++ ((k, s, c) ∷ [])) ≡ made_providers m ++ ((k, s) ∷ [])
  made_providers-append [] k s c = refl
  made_providers-append ((j, t, d) ∷ m) k s c = ap (λ r. (j, t) ∷ r) (made_providers-append m k s c)

  module _ (factory : Text → ProviderConfig → Result (S × Option C)) (r : Registry S C) where
    -- A round of a build that ends well.
    build_step :
        (k : Text) (p : ProviderConfig) (ps : List (Text × ProviderConfig)) (m out : Made S C)
        → build factory r ((k, p) ∷ ps) m ≡ (ok tt, out)
        → (s : S) × (c : Option C) × (build factory r ps (m ++ ((k, s, c) ∷ [])) ≡ (ok tt, out))
          × ((t : S) → reusable r k p ≡ some t → t ≡ s)
    unfolding build
    build_step k p ps m out h = elim (Option-cases (reusable r k p)) [
      | inr (s, e) ↦ (s, cleanup_of k r.cleanups, rw (e, build) at h, λ t q. ground (arith, q, e))
      | inl e ↦ elim (Result-cases (factory k p)) [
        | inl ((s, c), f) ↦ (s, c, rw (e, build, f) at h, λ t q. absurd (ground (arith, q, e)))
        | inr (x, f) ↦ let h' = rw (e, build, f) at h in absurd (ground (arith, ap (λ p. p.0) h'))
      ]
    ]

    -- A build that ends well has one provider to each entry, in their order.
    pub build_keys :
        (ps : List (Text × ProviderConfig)) (m out : Made S C)
        → build factory r ps m ≡ (ok tt, out)
        → map key (made_providers out) ≡ map key (made_providers m) ++ map key ps
    unfolding build
    build_keys [] m out h =
        let e : m ≡ out = ap (λ p. p.1) h in rw (← e, append-nil (map key (made_providers m))) refl
    build_keys ((k, p) ∷ ps) m out h =
        let (s, c, q, _) = build_step k p ps m out h in
        build_keys ps (m ++ ((k, s, c) ∷ [])) out q
        ∙ rw (made_providers-append m k s c) (keys-append (made_providers m) k s (map key ps))

    build_keeps :
        (k : Text) (t : S) (ps : List (Text × ProviderConfig)) (m out : Made S C)
        → build factory r ps m ≡ (ok tt, out)
        → has_entry k ps ≡ false
        → lookup k (made_providers out) ≡ lookup k (made_providers m)
    unfolding build
    build_keeps k t [] m out h new = ap (λ p. lookup k (made_providers p.1)) (sym h)
    build_keeps k t ((j, p) ∷ ps) m out h new =
        let other : eqb j k ≡ false = ground arith in
        let (s, c, q, _) = build_step j p ps m out h in
        build_keeps k t ps (m ++ ((j, s, c) ∷ [])) out q (ground arith)
        ∙ rw (made_providers-append m j s c) (lookup-append_other k j s (made_providers m) other)

    pub build_reuses :
        (ps : List (Text × ProviderConfig)) (m out : Made S C)
        → IsMap ps
        → build factory r ps m ≡ (ok tt, out)
        → ((j : Text) → has_entry j ps ≡ true → has_entry j (made_providers m) ≡ false)
        → (k : Text) (p : ProviderConfig) (t : S) → lookup k ps ≡ some p
        → reusable r k p ≡ some t
        → lookup k (made_providers out) ≡ some t
    build_reuses [] m out unique h fresh k p t l u = absurd (ground arith)
    build_reuses ((j, q) ∷ ps) m out unique h fresh k p t l u =
        let (s, c, b, same) = build_step j q ps m out h in
        elim (Bool-cases (eqb j k)) [
          | inl e ↦
              let jk = eqb→≡ j k e in
              let qp : q ≡ p = ground arith in
              let ts : t ≡ s = same t (rw (jk, qp) u) in
              rw (← jk) (
                build_keeps j s ps (m ++ ((j, s, c) ∷ [])) out b unique.0
                ∙ rw (made_providers-append m j s c, ts)
                    (lookup-append_last j s (made_providers m)
                      (fresh j (ground (arith, eqb_refl j)))))
          | inr e ↦
              build_reuses ps (m ++ ((j, s, c) ∷ [])) out unique.1 b
                (λ i n. rw (made_providers-append m j s c) (
                  fresh_append i j s (made_providers m) (fresh i (has_tail i j q ps n))
                    (apart i j ps n unique.0)))
                k p t (rw e at l) u
        ]
