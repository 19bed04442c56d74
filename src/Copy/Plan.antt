-- ===== src/Copy/Plan.antt =====
-- The loop of planNodeCopy (internal/usecase/node_copy.go) on the whole: it ends, and what it plans.
use omniflow_go.Prelude.{
  ℕ, zero, suc, ◌+◌, ◌≤◌, ◌<◌, ◌≡◌, ◌≢◌, refl, sym, ap, ◌∙◌, ◌⊎◌, inl, inr, some, List, [], ◌∷◌,
  ◌++◌, map, length, length-append, take, All-of, All_elem, Elem, arith, subst, append-nil,
}
use omniflow_go.Result.{Result, ok, err, ok_injective, Result-cases}
use omniflow_go.Names.{dir}
use omniflow_go.Storage.{Letters}
use omniflow_go.Storage.Registry.{Registry}
use omniflow_go.Copy.{
  Node, NodeCopyItem, Answers, max_copy_nodes, max_copy_bytes, see, plan_item, plan_loop, plan_fuel,
}
use omniflow_go.Copy.Queue.{AreDistinct, see_lem, size_of, IsRound, plan_item-IsRound}

abbrev pub nodes : {S : Type 0} → List (NodeCopyItem S) → List Node
nodes items = map (λ i. i.node) items

abbrev pub sizes : List Node → ℕ
sizes [] = 0
sizes (n ∷ ns) = size_of n + sizes ns

Elem-left : {A : Type 0} (a : A) (xs ys : List A) → Elem a xs → Elem a (xs ++ ys)
Elem-left a (x ∷ xs) ys (inl e) = inl e
Elem-left a (x ∷ xs) ys (inr m) = inr (Elem-left a xs ys m)
Elem-left a [] ys m = elim m [ ]

Elem-right : {A : Type 0} (a : A) (xs ys : List A) → Elem a ys → Elem a (xs ++ ys)
Elem-right a [] ys m = m
Elem-right a (x ∷ xs) ys m = inr (Elem-right a xs ys m)

Elem-split : {A : Type 0} (a : A) (xs ys : List A) → Elem a (xs ++ ys) → Elem a xs ⊎ Elem a ys
Elem-split a [] ys m = inr m
Elem-split a (x ∷ xs) ys (inl e) = inl (inl e)
Elem-split a (x ∷ xs) ys (inr m) = elim (Elem-split a xs ys m) [
  | inl n ↦ inl (inr n)
  | inr n ↦ inr n
]

AreDistinct-append :
    (xs ys : List Node)
    → AreDistinct xs
    → AreDistinct ys
    → ((a b : Node) → Elem a xs → Elem b ys → b.id ≢ a.id)
    → AreDistinct (xs ++ ys)
AreDistinct-append [] ys d e h = e
AreDistinct-append (x ∷ xs) ys d e h = (
  All-of (λ m. m.id ≢ x.id) (xs ++ ys)
      (λ m k. elim (Elem-split m xs ys k) [
        | inl n ↦ All_elem (λ m. m.id ≢ x.id) m xs d.0 n
        | inr n ↦ h x m (inl refl) n
      ]),
  AreDistinct-append xs ys d.1 e (λ a b m n. h a b (inr m) n),
)

sizes-append : (xs ys : List Node) → sizes (xs ++ ys) ≡ sizes xs + sizes ys
sizes-append [] ys = omega arith
sizes-append (x ∷ xs) ys = omega (arith, sizes-append xs ys)

-- The queue before and after a round.
queue_step :
    {S : Type 0} (done : List (NodeCopyItem S)) (item : NodeCopyItem S) (n : Node)
    (todo children : List Node)
    → item.node ≡ n
    → (nodes done ++ (n ∷ todo)) ++ children ≡ nodes (done ++ (item ∷ [])) ++ (todo ++ children)
queue_step [] item n todo children e = ap (λ m. m ∷ (todo ++ children)) (sym e)
queue_step (i ∷ done) item n todo children e =
    ap (λ q. i.node ∷ q) (queue_step done item n todo children e)

nodes-append :
    {S : Type 0} (done : List (NodeCopyItem S)) (item : NodeCopyItem S)
    → nodes (done ++ (item ∷ [])) ≡ nodes done ++ (item.node ∷ [])
nodes-append [] item = refl
nodes-append (i ∷ done) item = ap (λ q. i.node ∷ q) (nodes-append done item)

module _ (source : Node) (all : ℕ → List Node) where
  -- A tree that is complete below the directories among `visited`: the nodes of the queue have
  -- different ids, the first is the source, each other one is a child of a visited directory, and
  -- all the children of these are there.
  abbrev pub IsTreeUpTo : List Node → List Node → Type 0
  IsTreeUpTo visited queue =
      AreDistinct queue
      × ((p : Node) → Elem p visited → p.type ≡ dir → (c : Node) → Elem c (all p.id) → Elem c queue)
      × ((rest : List Node) × (queue ≡ source ∷ rest)
          × ((c : Node)
              → Elem c rest
              → (p : Node) × Elem p visited × (p.type ≡ dir) × Elem c (all p.id)))

  -- A node of the queue is visited.
  IsTreeUpTo-step :
      (visited queue : List Node) (n : Node) (children : List Node) (seen seen' : List ℕ)
      → ((m : Node) → Elem m queue → Elem m.id seen)
      → IsTreeUpTo visited queue
      → Elem n queue
      → see seen children ≡ ok seen'
      → (n.type ≡ dir → children ≡ all n.id)
      → (n.type ≡ dir) ⊎ (children ≡ [])
      → ((m : Node) → Elem m (queue ++ children) → Elem m.id seen')
        × IsTreeUpTo (visited ++ (n ∷ [])) (queue ++ children)
  IsTreeUpTo-step visited queue n children seen seen' saw (d, closed, (rest, first, rooted)) here
        see_all whole kind =
      let (keeps, adds, new, d') = see_lem seen children seen' see_all in
      (
        (λ m k. elim (Elem-split m queue children k) [
          | inl h ↦ keeps m.id (saw m h)
          | inr h ↦ adds m h
        ]),
        (
          AreDistinct-append queue children d d'
              (λ a b h h' e. new b h' (subst (λ id. Elem id seen) (sym e) (saw a h))),
          (λ p h t c k. elim (Elem-split p visited (n ∷ []) h) [
            | inl h' ↦ Elem-left c queue children (closed p h' t c k)
            | inr h' ↦ Elem-right c queue children (child p c h' t k)
          ]),
          (
            rest ++ children,
            ap (λ z. z ++ children) first,
            (λ c k. elim (Elem-split c rest children k) [
              | inl h ↦
                  let (p, h', t, k') = rooted c h in (p, Elem-left p visited (n ∷ []) h', t, k')
              | inr h ↦ elim kind [
                | inl t ↦
                    (n, Elem-right n visited (n ∷ []) (inl refl), t, subst (Elem c) (whole t) h)
                | inr e ↦ absurd (subst (Elem c) e h)
              ]
            ]),
          ),
        ),
      )
    where
      child : (p c : Node) → Elem p (n ∷ []) → p.type ≡ dir → Elem c (all p.id) → Elem c children
      child p c (inl e) t k =
          subst (Elem c) (ap (λ m. all m.id) e ∙ sym (whole (ap (λ m. m.type) (sym e) ∙ t))) k
      child p c (inr h) t k = elim h [ ]

  module _ {S C : Type 0} (l : Letters) (r : Registry S C) (q : Answers S) (library : ℕ)
      (limited : (id limit : ℕ) (children : List Node)
        → q.list_children id library limit ≡ ok children
        → children ≡ take limit (all id)) where
    abbrev IsState : List (NodeCopyItem S) → List Node → List ℕ → ℕ → Type 0
    IsState done todo seen total =
        (length done + length todo ≤ max_copy_nodes)
        × (total ≡ sizes (nodes done))
        × (total ≤ max_copy_bytes)
        × ((n : Node) → Elem n (nodes done ++ todo) → Elem n.id seen)
        × IsTreeUpTo (nodes done) (nodes done ++ todo)

    round-IsState :
        (done : List (NodeCopyItem S)) (n : Node) (todo : List Node) (seen : List ℕ) (total : ℕ)
        (item : NodeCopyItem S) (children : List Node) (seen' : List ℕ) (total' : ℕ)
        → IsState done (n ∷ todo) seen total
        → IsRound l r q library all limited n
            (length done + suc (length todo))
            seen
            total
            item
            children
            seen'
            total'
        → IsState (done ++ (item ∷ [])) (todo ++ children) seen' total'
    round-IsState done n todo seen total item children seen' total' (few, sum, room, saw, tree)
          (same, few', see_all, sum', room', whole, kind) =
        let step =
          IsTreeUpTo-step (nodes done) (nodes done ++ (n ∷ todo)) n children seen seen' saw tree
            (Elem-right n (nodes done) (n ∷ todo) (inl refl)) see_all whole kind in
        let queue = queue_step done item n todo children same in
        let visited = nodes-append done item ∙ ap (λ m. nodes done ++ (m ∷ [])) same in
        (
          omega (arith, few', length-append done (item ∷ []), length-append todo children),
          sum' ∙ ap (λ z. z + size_of n) sum ∙ sym (sum_of done item n same),
          room',
          subst (λ q. (m : Node) → Elem m q → Elem m.id seen') queue step.0,
          subst (λ v. IsTreeUpTo v (nodes (done ++ (item ∷ [])) ++ (todo ++ children)))
              (sym visited) (subst (IsTreeUpTo (nodes done ++ (n ∷ []))) queue step.1),
        )
      where
        sum_of :
            (done : List (NodeCopyItem S)) (item : NodeCopyItem S) (n : Node)
            → item.node ≡ n
            → sizes (nodes (done ++ (item ∷ []))) ≡ sizes (nodes done) + size_of n
        sum_of done item n e =
            ap sizes (nodes-append done item ∙ ap (λ m. nodes done ++ (m ∷ [])) e)
            ∙ sizes-append (nodes done) (n ∷ [])
            ∙ omega arith

    -- The loop ends with fewer rounds than its fuel, and where it has no error its queue is a tree.
    plan_loop_lem :
        (fuel : ℕ) (done : List (NodeCopyItem S)) (todo : List Node) (seen : List ℕ) (total : ℕ)
        → IsState done todo seen total
        → max_copy_nodes < fuel + length done
        → (res : Result (List (NodeCopyItem S))) × (plan_loop l r q library fuel done todo seen
              total
            ≡ some res)
          × ((items : List (NodeCopyItem S))
              → res ≡ ok items
              → (length items ≤ max_copy_nodes)
                × (sizes (nodes items) ≤ max_copy_bytes)
                × IsTreeUpTo (nodes items) (nodes items))
    unfolding plan_loop
    plan_loop_lem fuel done [] seen total (few, sum, room, saw, tree) b = (
      ok done,
      refl,
      λ items e.
          subst
            (λ i.
              (length i ≤ max_copy_nodes)
              × (sizes (nodes i) ≤ max_copy_bytes)
              × IsTreeUpTo (nodes i) (nodes i))
            (ok_injective e)
            (
              omega (arith, few),
              omega (arith, sum, room),
              subst (IsTreeUpTo (nodes done)) (sym (append-nil (nodes done))) tree,
            ),
    )
    plan_loop_lem zero done (n ∷ todo) seen total h b = absurd (omega (arith, h.0, b))
    plan_loop_lem (suc fuel) done (n ∷ todo) seen total h b =
        elim (Result-cases
          (plan_item l r q library (length done) n (length done + suc (length todo)) seen total)) [
            | inl ((item, children, seen', total'), e) ↦
                let round =
                  plan_item-IsRound l r q library all limited (length done) n
                    (length done + suc (length todo)) seen total item children seen' total' h.0 h.2
                    e in
                let (res, ends, right) =
                  plan_loop_lem fuel (done ++ (item ∷ [])) (todo ++ children) seen' total'
                    (round-IsState done n todo seen total item children seen' total' h round)
                    (omega (arith, b, length-append done (item ∷ []))) in
                (res, rw (plan_loop, e) ends, right)
            | inr (x, e) ↦ (err x, rw (plan_loop, e) refl, λ items e'. cc)
          ]

    start-IsState : IsState [] (source ∷ []) (source.id ∷ []) 0
    start-IsState = (
      omega arith,
      refl,
      omega arith,
      (λ n m. elim m [ inl e ↦ inl (ap (λ x. x.id) e) | inr m' ↦ elim m' [ ] ]),
      ((tt, tt), (λ p m. elim m [ ]), ([], refl, λ c m. elim m [ ])),
    )

    -- From the source on.
    pub plan_loop_start :
        (res : Result (List (NodeCopyItem S))) × (plan_loop l r q library plan_fuel []
            (source ∷ [])
            (source.id ∷ [])
            0
          ≡ some res)
        × ((items : List (NodeCopyItem S))
            → res ≡ ok items
            → (length items ≤ max_copy_nodes)
              × (sizes (nodes items) ≤ max_copy_bytes)
              × IsTreeUpTo (nodes items) (nodes items))
    plan_loop_start =
        plan_loop_lem plan_fuel [] (source ∷ []) (source.id ∷ []) 0 start-IsState (omega arith)
