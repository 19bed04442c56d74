-- ===== src/Storage/Reload/Kept.antt =====
-- What Reload (internal/storage/registry.go) keeps and what it cleans up, entry by entry.
use omniflow_go.Prelude.{
  ◌≡◌, ◌↔◌, refl, sym, ap, inl, inr, Bool, true, false, Option, none, some, List, [], ◌∷◌, map,
  Elem, Bool-cases, subst, some_injective,
}
use omniflow_go.Text.{Text, eqb}
use omniflow_go.Text.Laws.{eqb_refl, eqb→≡}
use omniflow_go.Storage.{ProviderConfig, StorageConfig, lookup, has_entry}
use omniflow_go.Storage.Registry.{Registry, key}
use omniflow_go.Storage.Reload.{
  bool_eqb, provider_config_equal, reusable, not_nil, values, removed_entries,
}

-- The fields that are compared.
abbrev pub IsSameProvider : ProviderConfig → ProviderConfig → Type 0
IsSameProvider a b =
    (a.type ≡ b.type)
    × (a.endpoint ≡ b.endpoint)
    × (a.access_key ≡ b.access_key)
    × (a.secret_key ≡ b.secret_key)
    × (a.use_ssl ≡ b.use_ssl)
    × (a.bucket ≡ b.bucket)
    × (a.region ≡ b.region)

bool_eqb_refl : (b : Bool) → bool_eqb b b ≡ true
bool_eqb_refl true = refl
bool_eqb_refl false = refl

provider_config_equal_same :
    (a b : ProviderConfig) → IsSameProvider a b → provider_config_equal a b ≡ true
unfolding provider_config_equal
provider_config_equal_same a b (t, e, k, s, u, n, g) =
    rw (t, e, k, s, u, n, g)
      (rw
        (
          eqb_refl b.type,
          eqb_refl b.endpoint,
          eqb_refl b.access_key,
          eqb_refl b.secret_key,
          bool_eqb_refl b.use_ssl,
          eqb_refl b.bucket,
          eqb_refl b.region,
        )
        refl)

pub reusable_same :
    {S C : Type 0} (r : Registry S C) (alias : Text) (old : StorageConfig) (p q : ProviderConfig)
    (s : S)
    → r.storage_cfg ≡ some old
    → lookup alias old.providers ≡ some q
    → IsSameProvider q p
    → lookup alias r.providers ≡ some s
    → reusable r alias p ≡ some s
unfolding reusable
reusable_same r alias old p q s stored found equal has =
    rw (reusable, stored, found, provider_config_equal_same q p equal) has

has_entry-Elem :
    {A : Type 0} (k : Text) (m : List (Text × A)) → has_entry k m ≡ true → Elem k (map key m)
has_entry-Elem k [] h = cc
has_entry-Elem k ((j, a) ∷ m) h = elim (Bool-cases (eqb j k)) [
  | inl b ↦ inl (sym (eqb→≡ j k b))
  | inr b ↦ inr (has_entry-Elem k m (rw b at h))
]

Elem-has_entry :
    {A : Type 0} (k : Text) (m : List (Text × A)) → Elem k (map key m) → has_entry k m ≡ true
Elem-has_entry k [] n = elim n [ ]
Elem-has_entry k ((j, a) ∷ m) (inl e) =
    let b : eqb j k ≡ true = subst (λ x. eqb x k ≡ true) e (eqb_refl k) in rw b refl
Elem-has_entry k ((j, a) ∷ m) (inr n) = elim (Bool-cases (eqb j k)) [
  | inl b ↦ rw b refl
  | inr b ↦ rw b (Elem-has_entry k m n)
]

-- The entries that are gone are those of the old list whose key the new one has not.
removed-Elem :
    {A C : Type 0} (m : List (Text × A)) (cs : List (Text × Option C)) (k : Text) (c : Option C)
    → Elem (k, c) (removed_entries m cs) ↔ (Elem (k, c) cs × ¬ Elem k (map key m))
removed-Elem m [] k c = ((λ n. elim n [ ]), λ n. elim n.0 [ ])
removed-Elem m ((j, a) ∷ cs) k c =
    let (to, from) = removed-Elem m cs k c in
    elim (Bool-cases (has_entry j m)) [
      | inl b ↦ rw b (
        (λ n. let (x, y) = to n in (inr x, y)),
        λ (n, out). elim n [
          | inl e ↦
              absurd (
                out
                  (subst (λ x. Elem x (map key m)) (sym (ap (λ x. x.0) e)) (has_entry-Elem j m b)))
          | inr x ↦ from (x, out)
        ],
      )
      | inr b ↦ rw b (
        (λ n. elim n [
          | inl e ↦ (
            inl e,
            λ in_m.
                let t =
                  Elem-has_entry j m (subst (λ x. Elem x (map key m)) (ap (λ x. x.0) e) in_m) in
                cc,
          )
          | inr x ↦ let (y, z) = to x in (inr y, z)
        ]),
        λ (n, out). elim n [ inl e ↦ inl e | inr x ↦ inr (from (x, out)) ],
      )
    ]

not_nil-Elem :
    {C : Type 0} (m : List (Text × Option C)) (c : C)
    → Elem c (not_nil (values m)) ↔ ((k : Text) × Elem (k, some c) m)
not_nil-Elem [] c = ((λ n. elim n [ ]), λ n. elim n.1 [ ])
not_nil-Elem ((j, none) ∷ m) c =
    let (to, from) = not_nil-Elem m c in
    (
      (λ n. let (k, x) = to n in (k, inr x)),
      λ (k, n). elim n [ inl e ↦ let e' = ap (λ x. x.1) e in cc | inr x ↦ from (k, x) ],
    )
not_nil-Elem ((j, some a) ∷ m) c =
    let (to, from) = not_nil-Elem m c in
    (
      (λ n. elim n [
        | inl e ↦ (j, inl (ap (λ x. (j, some x)) e))
        | inr x ↦ let (k, y) = to x in (k, inr y)
      ]),
      λ (k, n). elim n [
        | inl e ↦ inl (some_injective (ap (λ x. x.1) e))
        | inr x ↦ inr (from (k, x))
      ],
    )

key-Elem :
    {A : Type 0} (m : List (Text × A)) (k : Text) → Elem k (map key m) ↔ ((a : A) × Elem (k, a) m)
key-Elem [] k = ((λ n. elim n [ ]), λ n. elim n.1 [ ])
key-Elem ((j, a) ∷ m) k =
    let (to, from) = key-Elem m k in
    (
      (λ n. elim n [
        | inl e ↦ (a, inl (ap (λ x. (x, a)) e))
        | inr x ↦ let (b, y) = to x in (b, inr y)
      ]),
      λ (b, n). elim n [ inl e ↦ inl (ap (λ x. x.0) e) | inr x ↦ inr (from (b, x)) ],
    )

pub calls_iff :
    {A C : Type 0} (m : List (Text × A)) (cs : List (Text × Option C)) (c : C)
    → Elem c (not_nil (values (removed_entries m cs)))
      ↔ ((k : Text) × Elem (k, some c) cs × ¬ Elem k (map key m))
calls_iff m cs c =
    let (to, from) = not_nil-Elem (removed_entries m cs) c in
    (
      (λ n. let (k, x) = to n in let (y, z) = (removed-Elem m cs k (some c)).0 x in (k, y, z)),
      λ (k, y, z). from (k, (removed-Elem m cs k (some c)).1 (y, z)),
    )

pub gone_iff :
    {A C : Type 0} (m : List (Text × A)) (cs : List (Text × Option C)) (k : Text)
    → Elem k (map key (removed_entries m cs)) ↔ (Elem k (map key cs) × ¬ Elem k (map key m))
gone_iff m cs k =
    let (to, from) = key-Elem (removed_entries m cs) k in
    let (to', from') = key-Elem cs k in
    (
      (λ n. let (c, x) = to n in let (y, z) = (removed-Elem m cs k c).0 x in (from' (c, y), z)),
      λ (n, z). let (c, y) = to' n in from (c, (removed-Elem m cs k c).1 (y, z)),
    )
