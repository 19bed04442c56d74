-- ===== src/Create/Whole.antt =====
-- The creation of a node as a whole: createInExistingTransaction of internal/usecase/node.go.
use omniflow_go.Prelude.{
  ℕ, ◌+◌, ◌≤◌, ◌≡◌, ◌≢◌, sym, ap, ◌∙◌, ◌⊎◌, inl, inr, Bool, true, false, ◌||◌, not, arith, ◌==◌,
  leb, map, Elem, Bool-cases, length, then_branch, else_branch,
}
use omniflow_go.Text.{Text, is_empty, trim_space}
use omniflow_go.Result.{
  Result, ok, err, ok_injective, >>=-eq-ok, guard-eq-ok, invalid_argument, not_found,
}
use omniflow_go.Names.{
  max_node_ext_length, NodeType, is_file, ConflictPolicy, error, auto_rename, replace,
  domain_type_code, candidate_of, normalize_node_ext, normalize_node_name_conflict_policy,
  max_auto_rename_candidate_attempt,
}
use omniflow_go.Names.Laws.{resolve_auto_renamed_first}
use omniflow_go.Store.{Row, HasKeys, Database}
use omniflow_go.Move.{is_sibling, move_max_int32}
use omniflow_go.Recycle.{is_not_found}
use omniflow_go.Create.{
  CreateCommand, Outside, with_create_error, to_sibling, input_of, list_direct_children,
  find_view_by_id, renamed_among, name_by_policy, resolve_create_node_name, lock_sibling_name_scope,
  create_node, parent_or_root, resolve_create_parent_id, create_locked,
  create_in_existing_transaction,
}
use omniflow_go.Create.Node.{IsCreated, create_node-IsCreated}

-- The given name, or one of its numbered candidates.
abbrev pub IsNamed : Text → Text → Type 0
IsNamed wanted name =
    (name ≡ wanted)
    ⊎ ((k : ℕ) × (1 ≤ k) × (k ≤ max_auto_rename_candidate_attempt) × (name ≡ candidate_of wanted k))

==_false : (n : ℕ) → n == 0 ≡ false → n ≢ 0
==_false n b e = ground arith

pub with_create_error-ok :
    {A : Type 0} (call : Result A) (a : A) → with_create_error call ≡ ok a → call ≡ ok a
with_create_error-ok (ok b) a h = h
with_create_error-ok (err e) a h = cc

module _ (d : Database) (o : Outside d) where
  open d use {Session, nodes}

  renamed_among-IsNamed :
      (parent library : ℕ) (name ext : Text) (type : NodeType) (s : Session) (r : Text)
      → renamed_among d o parent library name ext type s ≡ ok r
      → IsNamed name r
  unfolding renamed_among
  renamed_among-IsNamed parent library name ext type s r h =
      let (children, _, h₁) = >>=-eq-ok (list_direct_children d o parent library s) _ h in
      elim (resolve_auto_renamed_first name ext type (map to_sibling children) r h₁) [
        | inl p ↦ inl p.0
        | inr q ↦ inr (q.0, q.1, q.2, q.3)
      ]

  -- Under the policy "error" it is the given one.
  name_by_policy-IsNamed :
      (p : ConflictPolicy) (parent library : ℕ) (name ext : Text) (type : NodeType) (s : Session)
      (r : Text)
      → name_by_policy d o p parent library name ext type s ≡ ok r
      → IsNamed name r × (p ≡ error → r ≡ name)
  unfolding name_by_policy
  name_by_policy-IsNamed error parent library name ext type s r h =
      let e = sym (ok_injective h) in (inl e, λ _. e)
  name_by_policy-IsNamed auto_rename parent library name ext type s r h =
      (renamed_among-IsNamed parent library name ext type s r h, λ e. cc)
  name_by_policy-IsNamed replace parent library name ext type s r h =
      (renamed_among-IsNamed parent library name ext type s r h, λ e. cc)

  resolve_create_node_name-IsNamed :
      (parent library : ℕ) (name ext : Text) (type : NodeType) (policy : Text) (s : Session)
      (r : Text)
      → resolve_create_node_name d o parent library name ext type policy s ≡ ok r
      → IsNamed name r
        × (normalize_node_name_conflict_policy o.to_lower policy ≡ ok error → r ≡ name)
  unfolding resolve_create_node_name
  resolve_create_node_name-IsNamed parent library name ext type policy s r h =
      let (p, e, h₁) = >>=-eq-ok (normalize_node_name_conflict_policy o.to_lower policy) _ h in
      let (named, same) = name_by_policy-IsNamed p parent library name ext type s r h₁ in
      (named, λ f. same (ok_injective (sym e ∙ f)))

  -- A strict parent is the wanted one.
  parent_or_root_strict :
      (now library parent p : ℕ) (call : Result Row) (s t : Session)
      → parent_or_root d o now library parent true call s ≡ ok (p, t)
      → p ≡ parent
  unfolding parent_or_root
  parent_or_root_strict now library parent p (ok view) s t h =
      let (_, h₁) = guard-eq-ok (not (is_file (domain_type_code view.node_type))) _ _ h in
      sym (ap (λ x. x.0) (ok_injective h₁))
  parent_or_root_strict now library parent p (err e) s t h =
      elim (Bool-cases (not (is_not_found e))) [
        | inl b ↦ let h' = then_branch (not (is_not_found e)) (err e) (err not_found) b ∙ h in cc
        | inr b ↦ let h' = else_branch (not (is_not_found e)) (err e) (err not_found) b ∙ h in cc
      ]

  resolve_create_parent_id_strict :
      (now library parent p : ℕ) (strict : Bool) (s t : Session)
      → resolve_create_parent_id d o now library parent strict s ≡ ok (p, t)
      → strict ≡ true
      → (p ≡ parent) × (parent ≢ 0)
  unfolding resolve_create_parent_id
  resolve_create_parent_id_strict now library parent p false s t h e = cc
  resolve_create_parent_id_strict now library parent p true s t h e =
      elim (Bool-cases (parent == 0)) [
        | inl b ↦ let h' = then_branch (parent == 0) (err invalid_argument) _ b ∙ h in cc
        | inr b ↦ (
          parent_or_root_strict now library parent p (find_view_by_id d o parent library s) s t
              (else_branch (parent == 0) (err invalid_argument) _ b ∙ h),
          ==_false parent b,
        )
      ]

  -- A creation that returns has resolved the parent, the wanted one if it is strict, and has added,
  -- behind the lock of the names under it, one row with the columns of the command, whose name is
  -- the given one or, unless the policy is "error", a numbered candidate; the order of the row is above
  -- those of its siblings, none of which has as its stored name and extension the visible name that is
  -- made of the new ones with the blanks around them cut off, so that its visible name differs from
  -- theirs where there is nothing to cut off; and a forest stays one; if keys are primary and the
  -- orders of the siblings are at least 15 below the largest int32.
  pub create_in_existing_transaction-IsCreated :
      (cmd : CreateCommand) (now : ℕ) (s u : Session) (r : Row)
      → ((parent : ℕ) (t v : Session)
          → resolve_create_parent_id d o now cmd.library cmd.parent cmd.strict_parent s
            ≡ ok (parent, t)
          → lock_sibling_name_scope d o cmd.library parent t ≡ ok v
          → HasKeys (nodes v)
            × ((q : Row)
                → Elem q (nodes v)
                → is_sibling cmd.library parent q ≡ true
                → q.sort_order + 15 ≤ move_max_int32))
      → create_in_existing_transaction d o cmd now s ≡ ok (r, u)
      → (parent : ℕ) × (t : Session) × (v : Session) × (name : Text) × (resolve_create_parent_id d o
            now cmd.library cmd.parent cmd.strict_parent s
          ≡ ok (parent, t))
        × (lock_sibling_name_scope d o cmd.library parent t ≡ ok v)
        × (cmd.strict_parent ≡ true → (parent ≡ cmd.parent) × (parent ≢ 0))
        × IsNamed cmd.name name
        × (normalize_node_name_conflict_policy o.to_lower cmd.conflict_policy ≡ ok error
            → name ≡ cmd.name)
        × IsCreated (input_of cmd parent name) now (nodes v) (nodes u) r
  unfolding create_in_existing_transaction create_locked
  create_in_existing_transaction-IsCreated cmd now s u r good h =
      let (_, h₁) = guard-eq-ok (not (cmd.library == 0 || is_empty (trim_space cmd.name))) _ _ h in
      let (_, _, h₂) = >>=-eq-ok (o.authorize cmd.library) _ h₁ in
      let (_, h₃) =
        guard-eq-ok
          (is_empty (normalize_node_ext cmd.ext)
            || leb (length (normalize_node_ext cmd.ext)) max_node_ext_length)
          _ _ h₂ in
      let ((parent, t), e, h₄) =
        >>=-eq-ok (resolve_create_parent_id d o now cmd.library cmd.parent cmd.strict_parent s) _
          h₃ in
      let (v, locked, h₅) = >>=-eq-ok (lock_sibling_name_scope d o cmd.library parent t) _ h₄ in
      let (name, e', h₆) =
        >>=-eq-ok
          (resolve_create_node_name d o parent cmd.library cmd.name (normalize_node_ext cmd.ext)
            cmd.type cmd.conflict_policy v)
          _ h₅ in
      let (named, same) =
        resolve_create_node_name-IsNamed parent cmd.library cmd.name (normalize_node_ext cmd.ext)
          cmd.type cmd.conflict_policy v name e' in
      let (keys, room) = good parent t v e locked in
      (
        parent,
        t,
        v,
        name,
        e,
        locked,
        λ strict.
            let (a, b) =
              resolve_create_parent_id_strict now cmd.library cmd.parent parent cmd.strict_parent s
                t e strict in
            (a, λ z. b (sym a ∙ z)),
        named,
        same,
        create_node-IsCreated d o (input_of cmd parent name) now v u r keys room
            (with_create_error-ok (create_node d o (input_of cmd parent name) now v) (r, u) h₆),
      )
