-- ===== src/Tests/Sorting.antt =====
-- Sorting the chapters of a comic, with an insertion sort for sort.SliceStable.
use omniflow_go.Prelude.{
  ◌≡◌, ◌↔◌, refl, inl, inr, Bool, false, some, none, List, [], ◌∷◌, arith, All, All_elem, All-of,
  Elem, Bool-cases, if◌then◌else◌, ◌then◌,
}
use omniflow_go.Text.{codes, trim_space}
use omniflow_go.Result.{ok}
use omniflow_go.Store.{Row, HasKeys, find_node_model}
use omniflow_go.Store.Memory.{memory}
use omniflow_go.Store.Memory.Select.{select_list, update_list}
use omniflow_go.Move.{deref_string}
use omniflow_go.Natural.{natural_compare, compare_runs, compare_digits, strip_zeros}
use omniflow_go.Natural.Sort.{
  IsOrder, IsSortedBy, SliceStable, is_direct_child, sortable_node_name, name_less, sort_loop,
  sort_direct_children_by_name,
}
use omniflow_go.Natural.Sort.Order.{HasPlainName}
use omniflow_go.Natural.Sort.Sorted.{IsNatural, sort_direct_children_by_name-IsNatural}
use omniflow_go.Tests.Naturals.{tables}
use omniflow_go.Tests.Moves.{row}

unfoldable insert : (Row → Row → Bool) → Row → List Row → List Row
insert less x [] = x ∷ []
insert less x (y ∷ ys) = if less y x then y ∷ insert less x ys else x ∷ y ∷ ys

unfoldable insertion_sort : (Row → Row → Bool) → List Row → List Row
unfolding insert
insertion_sort less [] = []
insertion_sort less (x ∷ xs) = insert less x (insertion_sort less xs)

Elem-insert :
    (less : Row → Row → Bool) (x : Row) (ys : List Row) (r : Row)
    → Elem r (insert less x ys) ↔ Elem r (x ∷ ys)
unfolding insert
Elem-insert less x [] r = (λ m. m, λ m. m)
Elem-insert less x (y ∷ ys) r =
    let (to, from) = Elem-insert less x ys r in
    elim (Bool-cases (less y x)) [
      | inl b ↦ rw b (λ m. ground (arith, to, m), λ m. ground (arith, from, m))
      | inr b ↦ rw b (λ m. m, λ m. m)
    ]

Elem-insertion_sort :
    (less : Row → Row → Bool) (xs : List Row) (r : Row)
    → Elem r (insertion_sort less xs) ↔ Elem r xs
unfolding insertion_sort
Elem-insertion_sort less [] r = (λ m. m, λ m. m)
Elem-insertion_sort less (x ∷ xs) r =
    let (to, from) = Elem-insertion_sort less xs r in
    let (out, into) = Elem-insert less x (insertion_sort less xs) r in
    (
      λ m. elim (out m) [ inl e ↦ inl e | inr n ↦ inr (to n) ],
      λ m. into (elim m [ inl e ↦ inl e | inr n ↦ inr (from n) ]),
    )

insert-IsSortedBy :
    (less : Row → Row → Bool) (rows : List Row) (x : Row) (ys : List Row)
    → IsOrder less rows
    → Elem x rows
    → ((y : Row) → Elem y ys → Elem y rows)
    → IsSortedBy less ys
    → IsSortedBy less (insert less x ys)
unfolding insert
insert-IsSortedBy less rows x [] order m inside s = (tt, tt)
insert-IsSortedBy less rows x (y ∷ ys) order m inside (first, s) = elim (Bool-cases (less y x)) [
  | inl b ↦ rw b (
    All-of (λ q. less q y ≡ false) (insert less x ys)
        (λ q n. elim ((Elem-insert less x ys q).0 n) [
          | inl e ↦ rw e (order.asym y x (inside y (inl refl)) m b)
          | inr k ↦ All_elem (λ q. less q y ≡ false) q ys first k
        ]),
    insert-IsSortedBy less rows x ys order m (λ z k. inside z (inr k)) s,
  )
  | inr b ↦ rw b (
    (
      b,
      All-of (λ q. less q x ≡ false) ys
          (λ q n.
            order.neither q y x (inside q (inr n)) (inside y (inl refl)) m
              (All_elem (λ q. less q y ≡ false) q ys first n) b),
    ),
    (first, s),
  )
]

sorted_within :
    (less : Row → Row → Bool) (rows xs : List Row)
    → IsOrder less rows
    → ((x : Row) → Elem x xs → Elem x rows)
    → IsSortedBy less (insertion_sort less xs)
unfolding insertion_sort
sorted_within less rows [] order inside = tt
sorted_within less rows (x ∷ xs) order inside =
    insert-IsSortedBy less rows x (insertion_sort less xs) order (inside x (inl refl))
      (λ y m. inside y (inr ((Elem-insertion_sort less xs y).0 m)))
      (sorted_within less rows xs order (λ y m. inside y (inr m)))

abbrev stable : SliceStable
stable = record {
  sort = insertion_sort;
  sort_rows = Elem-insertion_sort;
  sort_sorted = λ less rows order. sorted_within less rows rows order (λ x m. m);
}

-- A directory with three chapters and a text of the same name as one of them.
abbrev rows : List Row
rows =
    row 1 none 0 (codes "comic") 0
    ∷ row 2 (some 1) 0 (codes "ch10") 5
    ∷ row 3 (some 1) 0 (codes " Ch2") 6
    ∷ record (row 4 (some 1) 1 (codes "ch2") 7) { ext = some (codes "TXT") }
    ∷ row 5 (some 1) 0 (codes "ch2") 8
    ∷ row 6 (some 2) 0 (codes "a") 9
    ∷ []

abbrev sorted : List Row
sorted =
    row 1 none 0 (codes "comic") 0
    ∷ record (row 2 (some 1) 0 (codes "ch10") 4096) { updated_at = 7 }
    ∷ record (row 3 (some 1) 0 (codes " Ch2") 1024) { updated_at = 7 }
    ∷ record (row 4 (some 1) 1 (codes "ch2") 3072) { ext = some (codes "TXT"); updated_at = 7 }
    ∷ record (row 5 (some 1) 0 (codes "ch2") 2048) { updated_at = 7 }
    ∷ row 6 (some 2) 0 (codes "a") 9
    ∷ []

sorts : sort_direct_children_by_name memory tables stable 1 1 7 rows ≡ ok sorted
unfolding sort_direct_children_by_name sort_loop name_less sortable_node_name is_direct_child
    find_node_model select_list update_list insertion_sort insert natural_compare compare_runs
    compare_digits strip_zeros trim_space deref_string
sorts = refl

rows_keys : HasKeys rows
rows_keys q r m n e = ground arith

names_plain : All (HasPlainName tables) rows
unfolding sortable_node_name trim_space deref_string
names_plain = grind arith

sort_direct_children_by_name-IsNatural_example : IsNatural tables 1 1 rows sorted
sort_direct_children_by_name-IsNatural_example =
    sort_direct_children_by_name-IsNatural tables stable memory 1 1 7 rows sorted rows_keys
      (λ r m c. All_elem (HasPlainName tables) r rows names_plain m) sorts
