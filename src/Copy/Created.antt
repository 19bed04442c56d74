-- ===== src/Copy/Created.antt =====
-- The rows that a Copy (internal/usecase/node_copy.go) creates.
use omniflow_go.Prelude.{
  ℕ, ◌≡◌, refl, sym, ap, ◌∙◌, inl, inr, subst, arith, Option, none, some, Option-cases, List, [],
  ◌∷◌,
}
use omniflow_go.Text.{Text}
use omniflow_go.Result.{Result, ok, err, Result-cases}
use omniflow_go.Names.{ConflictPolicy}
use omniflow_go.Copy.{NodeCopyItem, CopyNodeCommand}
use omniflow_go.Copy.Objects.{
  Calls, CreateNodeCommand, CopyNodeResult, new_id, create_command, create_rest, create_all,
  end_copy,
}

-- What is asked for an item: the columns of its node, but for the new key of its object, in the
-- library of the command and under this parent.
pub record IsCommandOf {S : Type 0} (cmd : CopyNodeCommand) (item : NodeCopyItem S) (under : ℕ)
    (policy : Option ConflictPolicy) (command : CreateNodeCommand) : Type 0 where
  pub library : command.library_id ≡ cmd.library_id
  pub parent : command.parent_id ≡ under
  pub name : command.name ≡ item.node.name
  pub ext : command.ext ≡ item.node.ext
  pub type : command.type ≡ item.node.type
  pub mime_type : command.mime_type ≡ item.node.mime_type
  pub file_size : command.file_size ≡ item.node.file_size
  pub storage_key : command.storage_key ≡ item.key
  pub storage_provider : command.storage_provider ≡ item.node.storage_provider
  pub storage_bucket : command.storage_bucket ≡ item.node.storage_bucket
  pub conflict_policy : command.conflict_policy ≡ policy
  pub dry_run : command.dry_run ≡ cmd.dry_run

-- From `d` on a row was created for each item in turn, under the copy of the parent of its source,
-- and `end` is the database behind them; the policy is that of the first one, and that of the others
-- is "error".
abbrev pub AreCreated :
    {S D X : Type 0}
    → Calls S D X
    → CopyNodeCommand
    → Option ConflictPolicy
    → List (NodeCopyItem S)
    → List (ℕ × ℕ)
    → D
    → D
    → Type 0
AreCreated c cmd policy [] ids d end = d ≡ end
AreCreated {D = D} c cmd policy (item ∷ items) ids d end =
    (command : CreateNodeCommand) × (id : ℕ) × (d' : D) × IsCommandOf cmd item
      (new_id item.node.parent_id ids) policy command
    × (c.create command d ≡ (ok id, d'))
    × AreCreated c cmd (some ConflictPolicy.error) items ((item.node.id, id) ∷ ids) d' end

module _ {S D X : Type 0} (c : Calls S D X) (cmd : CopyNodeCommand) where
  create_command-IsCommandOf :
      (item : NodeCopyItem S) (parent : ℕ) (policy : Option ConflictPolicy)
      → IsCommandOf cmd item parent policy (create_command c cmd item parent policy)
  create_command-IsCommandOf item parent policy = record {
    library = refl;
    parent = refl;
    name = refl;
    ext = refl;
    type = refl;
    mime_type = refl;
    file_size = refl;
    storage_key = refl;
    storage_provider = refl;
    storage_bucket = refl;
    conflict_policy = refl;
    dry_run = refl;
  }

  create_rest-AreCreated :
      (items : List (NodeCopyItem S)) (ids : List (ℕ × ℕ)) (d end : D)
      → create_rest c cmd items ids d ≡ (ok tt, end)
      → AreCreated c cmd (some ConflictPolicy.error) items ids d end
  unfolding create_rest
  create_rest-AreCreated [] ids d end h = ap (λ r. r.1) h
  create_rest-AreCreated (item ∷ items) ids d end h =
      let command =
        create_command c cmd item (new_id item.node.parent_id ids) (some ConflictPolicy.error) in
      elim (Result-cases (c.create command d).0) [
        | inl (id, e) ↦ (
          command,
          id,
          (c.create command d).1,
          create_command-IsCommandOf item _ _,
          ap (λ r. (r, (c.create command d).1)) e,
          create_rest-AreCreated items ((item.node.id, id) ∷ ids) (c.create command d).1 end
              (rw (create_rest, e) at h),
        )
        | inr (f, e) ↦ let h' = rw (create_rest, e) at h in cc
      ]

  create_all-AreCreated :
      (item : NodeCopyItem S) (items : List (NodeCopyItem S)) (d end : D) (id : ℕ)
      → create_all c cmd (item ∷ items) d ≡ (ok id, end)
      → AreCreated c cmd cmd.conflict_policy
          (item ∷ items)
          ((item.node.parent_id, cmd.parent_id) ∷ [])
          d
          end
  unfolding create_all
  create_all-AreCreated item items d end id h =
      let command = create_command c cmd item cmd.parent_id cmd.conflict_policy in
      elim (Result-cases (c.create command d).0) [
        | inl (n, e) ↦
            let ids : List (ℕ × ℕ) =
              (item.node.id, n) ∷ (item.node.parent_id, cmd.parent_id) ∷ [] in
            let d' = (c.create command d).1 in
            elim (Result-cases (create_rest c cmd items ids d').0) [
              | inl (u, e') ↦
                  let h' = rw (create_all, e, e') at h in
                  (
                    command,
                    n,
                    d',
                    subst (λ p. IsCommandOf cmd item p cmd.conflict_policy command)
                        (sym root_parent)
                        (create_command-IsCommandOf item cmd.parent_id cmd.conflict_policy),
                    ap (λ r. (r, d')) e,
                    create_rest-AreCreated items ids d' end (
                        ap (λ r. (r, (create_rest c cmd items ids d').1)) e'
                        ∙ ap (λ (r : Result ℕ × D). (ok tt, r.1)) h'),
                  )
              | inr (f, e') ↦ let h' = rw (create_all, e, e') at h in cc
            ]
        | inr (f, e) ↦ let h' = rw (create_all, e) at h in cc
      ]
    where
      root_parent :
          new_id item.node.parent_id ((item.node.parent_id, cmd.parent_id) ∷ []) ≡ cmd.parent_id
      root_parent = ground arith

  -- The keys behind the root: the parent of the root's source stands for the command's parent.
  abbrev pub roots : List (NodeCopyItem S) → List (ℕ × ℕ)
  roots [] = []
  roots (item ∷ items) = (item.node.parent_id, cmd.parent_id) ∷ []

  -- The rows that a Copy has created, on the database that its COMMIT has left.
  abbrev pub IsWritten : List (NodeCopyItem S) → D → D → Type 0
  IsWritten items d end =
      (d' : D) × (x' : X) × AreCreated c cmd cmd.conflict_policy items (roots items) d d'
      × ((c.commit d' x').0 ≡ none)
      × (end ≡ (c.commit d' x').1)

  pub all_created :
      (items : List (NodeCopyItem S)) (d end : D) (id : ℕ)
      → create_all c cmd items d ≡ (ok id, end)
      → AreCreated c cmd cmd.conflict_policy items (roots items) d end
  unfolding create_all
  all_created [] d end id h = ap (λ (r : Result ℕ × D). r.1) h
  all_created (item ∷ items) d end id h = create_all-AreCreated item items d end id h

  pub end_copy-commits :
      (id count : ℕ) (before d : D) (r : Result (Unit {0}) × List (S × Text) × X)
      (res : CopyNodeResult)
      → (end_copy c cmd id count before d r).0 ≡ ok res
      → ((c.commit d r.2).0 ≡ none) × ((end_copy c cmd id count before d r).1 ≡ (c.commit d r.2).1)
  unfolding end_copy
  end_copy-commits id count before d (err e, uploaded, x') res q = cc
  end_copy-commits id count before d (ok u, uploaded, x') res q =
      elim (Option-cases (c.commit d x').0) [
        | inl e ↦ (e, rw (end_copy, e) refl)
        | inr (f, e) ↦ let q' = rw (end_copy, e) at q in cc
      ]
