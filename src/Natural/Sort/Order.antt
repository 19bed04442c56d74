-- ===== src/Natural/Sort/Order.antt =====
-- That the comparison which SortDirectChildrenByName sorts with is an order on plain names, as
-- sort.SliceStable needs.
use mathlib.Core.Option
use omniflow_go.Prelude.{
  ℕ, ◌<◌, ◌≡◌, ◌≢◌, refl, sym, ap, ◌∙◌, compare, Ordering, lt, eq, gt, ◌then◌, Bool, true, false,
  ◌⊎◌, inl, inr, some, List, arith, ltb, All, Elem, flip, flip-then, Chains, Chains-then,
  compare-flip, compare-Chains,
}
use omniflow_go.Store.{Row}
use omniflow_go.Natural.{Tables, natural_compare}
use omniflow_go.Natural.Loop.{natural_compare_total, natural_compare-flip}
use omniflow_go.Natural.Transitive.{IsPlain, natural_compare_trans}
use omniflow_go.Natural.Sort.{IsOrder, by_name_or_id, sortable_node_name, name_less}

module _ (u : Tables) where
  abbrev pub HasPlainName : Row → Type 0
  HasPlainName r = All (IsPlain u) (sortable_node_name u r)

  -- The row stands before the other one: its name does, or its key where the names are level.
  abbrev pub Precedes : Row → Row → Type 0
  Precedes q r =
      let c = natural_compare u (sortable_node_name u q) (sortable_node_name u r) in
      (c ≡ some lt) ⊎ ((c ≡ some eq) × (q.id < r.id))

is_lt : Ordering → Bool
is_lt lt = true
is_lt eq = false
is_lt gt = false

Chains-is_lt : (a b c : Ordering) → Chains a b c → is_lt a ≡ true → is_lt b ≡ true → is_lt c ≡ true
unfolding is_lt
Chains-is_lt lt lt c h p q = ap is_lt h
Chains-is_lt lt eq c h p q = ap is_lt h
Chains-is_lt lt gt c h p q = cc
Chains-is_lt eq b c h p q = cc
Chains-is_lt gt b c h p q = cc

Chains-not_gt :
    (a b c : Ordering)
    → Chains a b c
    → is_lt (flip a) ≡ false
    → is_lt (flip b) ≡ false
    → is_lt (flip c) ≡ false
unfolding is_lt
Chains-not_gt lt lt c h p q = ap (λ o. is_lt (flip o)) h
Chains-not_gt lt eq c h p q = ap (λ o. is_lt (flip o)) h
Chains-not_gt lt gt c h p q = cc
Chains-not_gt eq b c h p q = ap (λ o. is_lt (flip o)) h ∙ q
Chains-not_gt gt b c h p q = cc

by_name_or_id_lem :
    (o : Ordering) (m n : ℕ) → by_name_or_id (some o) (ltb m n) ≡ is_lt (o then compare m n)
unfolding is_lt
by_name_or_id_lem lt m n = refl
by_name_or_id_lem eq m n = ground arith
by_name_or_id_lem gt m n = refl

is_lt-flip : (o : Ordering) → is_lt o ≡ true → is_lt (flip o) ≡ false
unfolding is_lt
is_lt-flip lt h = refl
is_lt-flip eq h = refl
is_lt-flip gt h = cc

is_lt_then :
    (o : Ordering) (m n : ℕ) → is_lt (o then compare m n) ≡ true → (o ≡ lt) ⊎ ((o ≡ eq) × (m < n))
unfolding is_lt
is_lt_then lt m n h = inl refl
is_lt_then eq m n h = inr (refl, ground arith)
is_lt_then gt m n h = cc

is_lt_total :
    (o : Ordering) (m n : ℕ)
    → m ≢ n
    → is_lt (o then compare m n) ≡ false
    → is_lt (flip (o then compare m n)) ≡ true
unfolding is_lt
is_lt_total lt m n h e = cc
is_lt_total eq m n h e = ground arith
is_lt_total gt m n h e = refl

module _ (u : Tables) where
  -- Where two rows stand to each other.
  Ranks : Row → Row → Ordering → Type 0
  Ranks q r a = (name_less u q r ≡ is_lt a) × (name_less u r q ≡ is_lt (flip a))

  rank : Row → Row → Ordering → Ordering
  rank q r o = o then compare q.id r.id

  Ranks-of :
      (q r : Row) (o : Ordering)
      → natural_compare u (sortable_node_name u q) (sortable_node_name u r) ≡ some o
      → Ranks q r (rank q r o)
  unfolding name_less Ranks rank
  Ranks-of q r o h = (
    ap (λ c. by_name_or_id c (ltb q.id r.id)) h ∙ by_name_or_id_lem o q.id r.id,
    ap (λ c. by_name_or_id c (ltb r.id q.id))
          (natural_compare-flip u (sortable_node_name u q) (sortable_node_name u r)
            ∙ ap (Option.map flip) h)
        ∙ by_name_or_id_lem (flip o) r.id q.id
        ∙ ap is_lt (
            ap (λ c. flip o then c) (compare-flip q.id r.id)
            ∙ sym (flip-then o (compare q.id r.id))),
  )

  rank_of :
      (q r : Row)
      → (o : Ordering) × (natural_compare u (sortable_node_name u q) (sortable_node_name u r)
          ≡ some o)
        × Ranks q r (rank q r o)
  rank_of q r =
      let (o, e) = natural_compare_total u (sortable_node_name u q) (sortable_node_name u r) in
      (o, e, Ranks-of q r o e)

  pub name_less_asym : (q r : Row) → name_less u q r ≡ true → name_less u r q ≡ false
  unfolding Ranks
  name_less_asym q r h = let (o, e, f) = rank_of q r in f.1 ∙ is_lt-flip (rank q r o) (sym f.0 ∙ h)

  ranks :
      (p q r : Row)
      → HasPlainName u p
      → HasPlainName u q
      → HasPlainName u r
      → (a b c : Ordering) × Ranks p q a × Ranks q r b × Ranks p r c × Chains a b c
  unfolding rank
  ranks p q r hp hq hr =
      let (o₁, o₂, o₃, e₁, e₂, e₃, h) =
        natural_compare_trans u (sortable_node_name u p) (sortable_node_name u q)
          (sortable_node_name u r) hp hq hr in
      (
        rank p q o₁,
        rank q r o₂,
        rank p r o₃,
        Ranks-of p q o₁ e₁,
        Ranks-of q r o₂ e₂,
        Ranks-of p r o₃ e₃,
        Chains-then o₁ o₂ o₃ (compare p.id q.id) (compare q.id r.id) (compare p.id r.id) h
            (λ x y. compare-Chains p.id q.id r.id),
      )

  pub name_less-IsOrder :
      (rows : List Row) → ((r : Row) → Elem r rows → HasPlainName u r) → IsOrder (name_less u) rows
  unfolding Ranks
  name_less-IsOrder rows plain = record {
    asym = λ q r mq mr. name_less_asym q r;
    trans = λ p q r mp mq mr x y.
        let (a, b, c, f, g, h, k) = ranks p q r (plain p mp) (plain q mq) (plain r mr) in
        h.0 ∙ Chains-is_lt a b c k (sym f.0 ∙ x) (sym g.0 ∙ y);
    neither = λ p q r mp mq mr x y.
        let (a, b, c, f, g, h, k) = ranks r q p (plain r mr) (plain q mq) (plain p mp) in
        h.1 ∙ Chains-not_gt a b c k (sym f.1 ∙ y) (sym g.1 ∙ x);
  }

  -- The comparison tells which row precedes, and of two with different keys one does.
  pub name_less-Precedes : (q r : Row) → name_less u q r ≡ true → Precedes u q r
  unfolding Ranks rank
  name_less-Precedes q r h =
      let (o, e, f) = rank_of q r in
      elim (is_lt_then o q.id r.id (sym f.0 ∙ h)) [
        | inl l ↦ inl (e ∙ ap some l)
        | inr (l, b) ↦ inr (e ∙ ap some l, b)
      ]

  pub Precedes-name_less : (q r : Row) → Precedes u q r → name_less u q r ≡ true
  unfolding name_less
  Precedes-name_less q r (inl e) = ap (λ c. by_name_or_id c (ltb q.id r.id)) e
  Precedes-name_less q r (inr (e, b)) = ap (λ c. by_name_or_id c (ltb q.id r.id)) e ∙ ground arith

  pub name_less_total : (q r : Row) → q.id ≢ r.id → name_less u q r ≡ false → name_less u r q ≡ true
  unfolding Ranks rank
  name_less_total q r h e =
      let (o, e', f) = rank_of q r in f.1 ∙ is_lt_total o q.id r.id h (sym f.0 ∙ e)
