-- ===== src/Tests/Naming.antt =====
-- The automatic renaming of a file "a.txt" among siblings.
use omniflow_go.Prelude.{
  ℕ, length, arith, ◌≤◌, ◌<◌, ◌≡◌, refl, ◌⊎◌, ◌↔◌, true, false, List, [], ◌∷◌,
}
use omniflow_go.Text.{codes, contains}
use omniflow_go.Result.{ok, err, conflict}
use omniflow_go.Names.{
  file, Sibling, max_auto_rename_candidate_attempt, max_node_name_length, node_visible_name,
  candidate_of, existing_names, resolve_auto_renamed_node_name, rename_loop,
}
use omniflow_go.Names.Laws.{
  taken, resolve_auto_renamed_first, resolve_auto_renamed-length, resolve_auto_renamed_error_iff,
}

abbrev siblings : List Sibling
siblings =
    record { name = codes "a"; ext = codes "txt"; type = file }
    ∷ record { name = codes "a (1) "; ext = codes ".txt"; type = file }
    ∷ []

renamed :
    resolve_auto_renamed_node_name (codes "a") (codes "txt") file siblings ≡ ok (codes "a (2)")
unfolding resolve_auto_renamed_node_name rename_loop candidate_of node_visible_name contains
renamed = refl

resolve_auto_renamed_first_example :
    ((codes "a (2)" ≡ codes "a")
      × (contains (existing_names siblings) (node_visible_name (codes "a") (codes "txt") file)
          ≡ false))
    ⊎ ((k : ℕ) × (1 ≤ k)
        × (k ≤ max_auto_rename_candidate_attempt)
        × (codes "a (2)" ≡ candidate_of (codes "a") k)
        × (contains (existing_names siblings) (node_visible_name (codes "a") (codes "txt") file)
            ≡ true)
        × (taken (codes "a") (codes "txt") file siblings k ≡ false)
        × ((j : ℕ) → 1 ≤ j → j < k → taken (codes "a") (codes "txt") file siblings j ≡ true))
resolve_auto_renamed_first_example =
    resolve_auto_renamed_first (codes "a") (codes "txt") file siblings (codes "a (2)") renamed

resolve_auto_renamed-length_example : length (codes "a (2)") ≤ max_node_name_length
resolve_auto_renamed-length_example =
    resolve_auto_renamed-length (codes "a") (codes "txt") file siblings (codes "a (2)")
      (omega arith) renamed

resolve_auto_renamed_error_iff_example :
    (resolve_auto_renamed_node_name (codes "a") (codes "txt") file siblings ≡ err conflict) ↔ (
      (conflict ≡ conflict)
      × (contains (existing_names siblings) (node_visible_name (codes "a") (codes "txt") file)
          ≡ true)
      × ((j : ℕ)
          → 1 ≤ j
          → j ≤ max_auto_rename_candidate_attempt
          → taken (codes "a") (codes "txt") file siblings j ≡ true))
resolve_auto_renamed_error_iff_example =
    resolve_auto_renamed_error_iff (codes "a") (codes "txt") file siblings conflict
