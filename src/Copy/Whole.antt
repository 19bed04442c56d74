-- ===== src/Copy/Whole.antt =====
-- planNodeCopy (internal/usecase/node_copy.go) on the whole.
use omniflow_go.Prelude.{
  ℕ, ◌≤◌, ◌≡◌, refl, ◌∙◌, inl, inr, some, List, length, take, not, ◌||◌, ◌==◌,
}
use omniflow_go.Result.{Result, ok, err, Result-cases, >>=-eq-ok, guard-eq-ok, invalid_argument}
use omniflow_go.Names.{is_file}
use omniflow_go.Storage.{Letters}
use omniflow_go.Storage.Registry.{Registry}
use omniflow_go.Copy.{
  Node, NodeCopyItem, CopyNodeCommand, Answers, max_copy_nodes, max_copy_bytes, copy_node_view,
  check_place, rename_root, plan_node_copy, has_id,
}
use omniflow_go.Copy.Plan.{nodes, sizes, IsTreeUpTo, plan_loop_start}

-- What was planned: at most 1000 nodes of at most 1 GiB together, which are the source and all that
-- is below it, none of them twice; then the root gets its new name.
abbrev pub IsPlan :
    {S C : Type 0}
    → Letters
    → Registry S C
    → Answers S
    → (ℕ → List Node)
    → CopyNodeCommand
    → List (NodeCopyItem S)
    → Type 0
IsPlan l r q all cmd items =
    (source : Node) × (plan : List (NodeCopyItem _)) × (copy_node_view l r q cmd.node_id
        cmd.library_id
      ≡ ok source)
    × (length plan ≤ max_copy_nodes)
    × (sizes (nodes plan) ≤ max_copy_bytes)
    × IsTreeUpTo source all (nodes plan) (nodes plan)
    × (rename_root l r q cmd.name source.type plan ≡ ok items)

check_place_source :
    {S C : Type 0} (l : Letters) (r : Registry S C) (q : Answers S) (cmd : CopyNodeCommand)
    (source : Node)
    → check_place l r q cmd ≡ ok source
    → copy_node_view l r q cmd.node_id cmd.library_id ≡ ok source
unfolding check_place
check_place_source l r q cmd source e =
    let (v, found, e₁) = >>=-eq-ok (copy_node_view l r q cmd.node_id cmd.library_id) _ e in
    let (_, e₂) = guard-eq-ok (not (v.parent_id == 0)) invalid_argument _ e₁ in
    let (_, e₃) = guard-eq-ok (is_file v.type || cmd.recursive) invalid_argument _ e₂ in
    let (p, _, e₄) = >>=-eq-ok (copy_node_view l r q cmd.parent_id cmd.library_id) _ e₃ in
    let (_, e₅) = guard-eq-ok (not (is_file p.type)) invalid_argument _ e₄ in
    let (a, _, e₆) = >>=-eq-ok (q.list_ancestors cmd.parent_id cmd.library_id) _ e₅ in
    let (_, e₇) = guard-eq-ok (not (cmd.parent_id == cmd.node_id)) invalid_argument _ e₆ in
    let (_, e₈) = guard-eq-ok (not (has_id cmd.node_id a)) invalid_argument _ e₇ in found ∙ e₈

-- The planning ends for every tree of rows, cyclic ones too; and where it has no error, it has planned
-- the source and all nodes below it, each once, at most 1000 and at most 1 GiB together; if the query
-- of the children gives the first `limit` of them.
pub plan_node_copy-IsPlan :
    {S C : Type 0} (l : Letters) (r : Registry S C) (q : Answers S) (all : ℕ → List Node)
    (cmd : CopyNodeCommand)
    → ((id limit : ℕ) (children : List Node)
        → q.list_children id cmd.library_id limit ≡ ok children
        → children ≡ take limit (all id))
    → (res : Result (List (NodeCopyItem S))) × (plan_node_copy l r q cmd ≡ some res)
      × ((items : List (NodeCopyItem S)) → res ≡ ok items → IsPlan l r q all cmd items)
unfolding plan_node_copy check_place
plan_node_copy-IsPlan l r q all cmd limited = elim (Result-cases (check_place l r q cmd)) [
  | inr (x, e) ↦ (err x, rw (plan_node_copy, e) refl, λ items e'. cc)
  | inl (source, e) ↦
      let (res, ends, right) = plan_loop_start source all l r q cmd.library_id limited in
      elim (Result-cases res) [
        | inr (x, e') ↦ (err x, rw (plan_node_copy, e, ends, e') refl, λ items e''. cc)
        | inl (plan, e') ↦
            let (few, small, tree) = right plan e' in
            (
              rename_root l r q cmd.name source.type plan,
              rw (plan_node_copy, e, ends, e') refl,
              λ items e''.
                  (source, plan, check_place_source l r q cmd source e, few, small, tree, e''),
            )
      ]
]
