-- ===== src/Names/Laws.antt =====
-- What the automatic renaming gives: a free name, the first of the candidates, within the limit.
use native.Mathlib.Decide.{dec_le}
use omniflow_go.Prelude.{
  ℕ, zero, suc, ◌+◌, ◌-◌, ◌≤◌, ◌<◌, ◌≡◌, refl, ◌↔◌, ◌⊎◌, inl, inr, Bool, true, false, List, [], ◌∷◌,
  arith, Bool-cases, length, length-append, length-take_le,
}
use omniflow_go.Text.{Text, contains, decimal}
use omniflow_go.Text.Laws.{decimal-length}
use omniflow_go.Result.{Error, ok, err, conflict}
use omniflow_go.Names.{
  NodeType, dir, file, Sibling, max_node_name_length, max_auto_rename_candidate_attempt,
  node_visible_name, node_type_code, build_visible_name, truncate_node_name_for_suffix, suffix_of,
  candidate_of, existing_names, rename_loop, resolve_auto_renamed_node_name,
}

-- The repository and the use case show a node by the same name.
build_visible_name-eq :
    (name ext : Text) (type : NodeType)
    → build_visible_name name ext (node_type_code type) ≡ node_visible_name name ext type
unfolding build_visible_name node_visible_name node_type_code
build_visible_name-eq name ext dir = refl
build_visible_name-eq name ext file = refl

-- A candidate is taken if a sibling shows its visible name.
abbrev pub taken : Text → Text → NodeType → List Sibling → ℕ → Bool
taken name ext type siblings index =
    contains (existing_names siblings) (node_visible_name (candidate_of name index) ext type)

loop_first :
    (left index : ℕ) (name ext : Text) (type : NodeType) (siblings : List Sibling) (r : Text)
    → rename_loop left index name ext type (existing_names siblings) ≡ ok r
    → (k : ℕ) × (index ≤ k)
      × (k < index + left)
      × (r ≡ candidate_of name k)
      × (taken name ext type siblings k ≡ false)
      × ((j : ℕ) → index ≤ j → j < k → taken name ext type siblings j ≡ true)
unfolding rename_loop
loop_first zero index name ext type siblings r h = cc
loop_first (suc left) index name ext type siblings r h =
    elim (Bool-cases (taken name ext type siblings index)) [
      | inl busy ↦
          let (k, a, b, c, d, e) =
            loop_first left (index + 1) name ext type siblings r (rw busy at h) in
          (
            k,
            omega arith,
            omega arith,
            c,
            d,
            λ j p q. elim (dec_le (index + 1) j) [
              | yes l ↦ e j l q
              | no l ↦ let same : j ≡ index = omega arith in rw same busy
            ],
          )
      | inr free ↦
          let same : r ≡ candidate_of name index = ground arith in
          (index, omega arith, omega arith, same, free, λ j p q. absurd (omega arith))
    ]

loop_error :
    (left index : ℕ) (name ext : Text) (type : NodeType) (siblings : List Sibling) (e : Error)
    → rename_loop left index name ext type (existing_names siblings) ≡ err e
    → (e ≡ conflict)
      × ((j : ℕ) → index ≤ j → j < index + left → taken name ext type siblings j ≡ true)
unfolding rename_loop
loop_error zero index name ext type siblings e h = (ground arith, λ j p q. absurd (omega arith))
loop_error (suc left) index name ext type siblings e h =
    elim (Bool-cases (taken name ext type siblings index)) [
      | inl busy ↦
          let (a, b) = loop_error left (index + 1) name ext type siblings e (rw busy at h) in
          (
            a,
            λ j p q. elim (dec_le (index + 1) j) [
              | yes l ↦ b j l (omega arith)
              | no l ↦ let same : j ≡ index = omega arith in rw same busy
            ],
          )
      | inr free ↦ absurd (ground arith)
    ]

-- A name that comes back is the given one, shown by no sibling, or the candidate of the least
-- index from 1 to 10000 that no sibling shows, the given one being shown.
pub resolve_auto_renamed_first :
    (name ext : Text) (type : NodeType) (siblings : List Sibling) (r : Text)
    → resolve_auto_renamed_node_name name ext type siblings ≡ ok r
    → ((r ≡ name) × (contains (existing_names siblings) (node_visible_name name ext type) ≡ false))
      ⊎ ((k : ℕ) × (1 ≤ k)
          × (k ≤ max_auto_rename_candidate_attempt)
          × (r ≡ candidate_of name k)
          × (contains (existing_names siblings) (node_visible_name name ext type) ≡ true)
          × (taken name ext type siblings k ≡ false)
          × ((j : ℕ) → 1 ≤ j → j < k → taken name ext type siblings j ≡ true))
unfolding resolve_auto_renamed_node_name
resolve_auto_renamed_first name ext type siblings r h =
    elim (Bool-cases (contains (existing_names siblings) (node_visible_name name ext type))) [
      | inl busy ↦
          let (k, a, b, c, d, e) =
            loop_first max_auto_rename_candidate_attempt 1 name ext type siblings r
              (rw busy at h) in
          inr (k, a, omega arith, c, busy, d, e)
      | inr free ↦ inl (ground arith, free)
    ]

resolve_auto_renamed_error :
    (name ext : Text) (type : NodeType) (siblings : List Sibling) (e : Error)
    → resolve_auto_renamed_node_name name ext type siblings ≡ err e
    → (e ≡ conflict)
      × (contains (existing_names siblings) (node_visible_name name ext type) ≡ true)
      × ((j : ℕ)
          → 1 ≤ j
          → j ≤ max_auto_rename_candidate_attempt
          → taken name ext type siblings j ≡ true)
unfolding resolve_auto_renamed_node_name
resolve_auto_renamed_error name ext type siblings e h =
    elim (Bool-cases (contains (existing_names siblings) (node_visible_name name ext type))) [
      | inl busy ↦
          let (a, b) =
            loop_error max_auto_rename_candidate_attempt 1 name ext type siblings e
              (rw busy at h) in
          (a, busy, λ j p q. b j p (omega arith))
      | inr free ↦ absurd (ground arith)
    ]

loop_all_taken :
    (left index : ℕ) (name ext : Text) (type : NodeType) (siblings : List Sibling)
    → ((j : ℕ) → index ≤ j → j < index + left → taken name ext type siblings j ≡ true)
    → rename_loop left index name ext type (existing_names siblings) ≡ err conflict
unfolding rename_loop
loop_all_taken zero index name ext type siblings h = refl
loop_all_taken (suc left) index name ext type siblings h =
    rw (h index (omega arith) (omega arith)) (
      loop_all_taken left (index + 1) name ext type siblings
        (λ j p q. h j (omega arith) (omega arith)))

-- The result is an error, which is then a conflict, exactly if the given name and the candidates of
-- all indices from 1 to 10000 are shown by siblings.
pub resolve_auto_renamed_error_iff :
    (name ext : Text) (type : NodeType) (siblings : List Sibling) (e : Error)
    → (resolve_auto_renamed_node_name name ext type siblings ≡ err e) ↔ (
        (e ≡ conflict)
        × (contains (existing_names siblings) (node_visible_name name ext type) ≡ true)
        × ((j : ℕ)
            → 1 ≤ j
            → j ≤ max_auto_rename_candidate_attempt
            → taken name ext type siblings j ≡ true))
unfolding resolve_auto_renamed_node_name
resolve_auto_renamed_error_iff name ext type siblings e = (
  λ h. resolve_auto_renamed_error name ext type siblings e h,
  λ (c, busy, all).
      rw (c, busy)
        (loop_all_taken max_auto_rename_candidate_attempt 1 name ext type siblings
          (λ j p q. all j p (omega arith))),
)

-- Whatever name comes back, no sibling shows it.
pub resolve_auto_renamed_free :
    (name ext : Text) (type : NodeType) (siblings : List Sibling) (r : Text)
    → resolve_auto_renamed_node_name name ext type siblings ≡ ok r
    → contains (existing_names siblings) (node_visible_name r ext type) ≡ false
resolve_auto_renamed_free name ext type siblings r h =
    elim (resolve_auto_renamed_first name ext type siblings r h) [
      | inl p ↦ rw p.0 p.1
      | inr p ↦ rw p.3 p.5
    ]

truncate-length :
    (name suffix : Text)
    → length suffix ≤ max_node_name_length
    → length (truncate_node_name_for_suffix name suffix) + length suffix ≤ max_node_name_length
unfolding truncate_node_name_for_suffix
truncate-length name suffix h =
    ground (arith, length-take_le (max_node_name_length - length suffix) name)

suffix-length : (index : ℕ) → index ≤ 10000 → length (suffix_of index) ≤ 8
unfolding suffix_of
suffix-length index h =
    omega (arith, length-append (decimal index) (b')' ∷ []), decimal-length 4 index (omega arith))

-- The name that comes back is no longer than 255 runes, if the given one is not.
pub resolve_auto_renamed-length :
    (name ext : Text) (type : NodeType) (siblings : List Sibling) (r : Text)
    → length name ≤ max_node_name_length
    → resolve_auto_renamed_node_name name ext type siblings ≡ ok r
    → length r ≤ max_node_name_length
unfolding candidate_of
resolve_auto_renamed-length name ext type siblings r l h =
    elim (resolve_auto_renamed_first name ext type siblings r h) [
      | inl p ↦ rw p.0 l
      | inr p ↦
          rw (p.3, length-append)
            (truncate-length name (suffix_of p.0) (omega (arith, suffix-length p.0 p.2)))
    ]
