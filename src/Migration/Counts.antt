-- ===== src/Migration/Counts.antt =====
-- Sums over the items of a task, and what the statements of Steps.antt do to them.
use omniflow_go.Prelude.{
  ℕ, suc, ◌+◌, ◌≤◌, ◌≡◌, ◌≢◌, refl, sym, ap, ◌∙◌, inl, inr, Bool, true, false, ◌&&◌, not, some,
  List, [], ◌∷◌, ◌==◌, if◌then◌else◌, Elem, All, All_elem, length, arith, Bool-cases, ==_iff, leb,
  subst, some_injective, Option-cases, else_branch, then_branch,
}
use omniflow_go.Migration.{
  ItemStatus, TaskItem, is_pending, item_skipped, update_rows, add_positive,
}
use omniflow_go.Migration.Requests.{first_pending, earlier}
use omniflow_go.Migration.Steps.{set_item, without}

-- What an item adds to the number of done items, to their bytes, and to the number of pending ones.
abbrev pub is_done : ItemStatus → Bool
is_done ItemStatus.pending = false
is_done ItemStatus.running = false
is_done ItemStatus.done = true
is_done ItemStatus.failed = false
is_done ItemStatus.skipped = false

abbrev pub one_done : TaskItem → ℕ
one_done i = if is_done i.status then 1 else 0

abbrev pub bytes_done : TaskItem → ℕ
bytes_done i = if is_done i.status then i.file_size else 0

abbrev pub one_pending : TaskItem → ℕ
one_pending i = if is_pending i.status then 1 else 0

abbrev pub total : (TaskItem → ℕ) → List TaskItem → ℕ
total f [] = 0
total f (i ∷ items) = f i + total f items

abbrev pub AreDistinct : List TaskItem → Type 0
AreDistinct [] = Unit
AreDistinct (i ∷ items) = All (λ j. j.id ≢ i.id) items × AreDistinct items

-- The row of a claimed item is running.
abbrev pub IsRunning : List TaskItem → TaskItem → Type 0
IsRunning items j =
    (i : TaskItem) × Elem i items
    × (i.id ≡ j.id)
    × (i.status ≡ ItemStatus.running)
    × (i.file_size ≡ j.file_size)

differs : (a b : ℕ) → a ≢ b → (a == b) ≡ false
differs a b n = ground arith

same_id : (x i : TaskItem) → i ≡ x → (x.id == i.id) ≡ true
same_id x i e = (==_iff x.id i.id).1 (ap (λ y. y.id) (sym e))

set_item_none :
    (id : ℕ) (g : TaskItem → TaskItem) (items : List TaskItem)
    → All (λ j. j.id ≢ id) items
    → set_item id g items ≡ items
set_item_none id g [] h = refl
set_item_none id g (x ∷ xs) h = rw (differs x.id id h.0, set_item_none id g xs h.1) refl

-- What an update of one row does to a sum over the rows.
pub total-set_item :
    (f : TaskItem → ℕ) (g : TaskItem → TaskItem) (i : TaskItem) (items : List TaskItem)
    → AreDistinct items
    → Elem i items
    → total f (set_item i.id g items) + f i ≡ total f items + f (g i)
total-set_item f g i (x ∷ xs) d (inl e) =
    subst (λ y. total f (set_item y.id g (x ∷ xs)) + f y ≡ total f (x ∷ xs) + f (g y)) (sym e)
      (rw (same_id x x refl, set_item_none x.id g xs d.0) omega arith)
total-set_item f g i (x ∷ xs) d (inr m) =
    let other = All_elem (λ j. j.id ≢ x.id) i xs d.0 m in
    rw (differs x.id i.id (λ e. other (sym e))) omega (arith, total-set_item f g i xs d.1 m)
total-set_item f g i [] d m = elim m [ ]

module _ (p : TaskItem → Bool) (g : TaskItem → TaskItem)
    (keeps : (i : TaskItem) → (g i).id ≡ i.id) where
  keeps_if : (i : TaskItem) → (if p i then g i else i).id ≡ i.id
  keeps_if i = elim (Bool-cases (p i)) [ inl e ↦ rw e (keeps i) | inr e ↦ rw e refl ]

  others-update :
      (n : ℕ) (items : List TaskItem)
      → All (λ j. j.id ≢ n) items
      → All (λ j. j.id ≢ n) (update_rows p g items)
  others-update n [] h = tt
  others-update n (x ∷ xs) h = ((λ e. h.0 (sym (keeps_if x) ∙ e)), others-update n xs h.1)

  pub AreDistinct-update :
      (items : List TaskItem) → AreDistinct items → AreDistinct (update_rows p g items)
  AreDistinct-update [] h = tt
  AreDistinct-update (x ∷ xs) h = (
    subst (λ n. All (λ j. j.id ≢ n) (update_rows p g xs)) (sym (keeps_if x))
        (others-update x.id xs h.0),
    AreDistinct-update xs h.1,
  )

  pub Elem-update :
      (i : TaskItem) (items : List TaskItem)
      → p i ≡ false
      → Elem i items
      → Elem i (update_rows p g items)
  Elem-update i (x ∷ xs) h (inl e) = inl (e ∙ else_branch (p x) (g x) x (ap p (sym e) ∙ h))
  Elem-update i (x ∷ xs) h (inr m) = inr (Elem-update i xs h m)
  Elem-update i [] h m = elim m [ ]

pub first_pending_lem :
    (locked : ℕ → Bool) (items : List TaskItem) (i : TaskItem)
    → first_pending locked items ≡ some i
    → Elem i items × (is_pending i.status ≡ true)
first_pending_lem locked [] i e = cc
first_pending_lem locked (x ∷ xs) i e =
    elim (Bool-cases (is_pending x.status && not (locked x.id))) [
      | inl b ↦
          let e' = some_injective (then_branch _ _ _ b ∙ e) in
          elim (Option-cases (first_pending locked xs)) [
            | inl n ↦
                let e'' = ap (earlier x) (sym n) ∙ e' in
                (inl (sym e''), ap (λ y. is_pending y.status) (sym e'') ∙ is_first x b)
            | inr (j, n) ↦
                let e'' = ap (earlier x) (sym n) ∙ e' in
                elim (Bool-cases (leb x.id j.id)) [
                  | inl c ↦
                      let same = then_branch (leb x.id j.id) x j c ∙ e'' in
                      (inl (sym same), ap (λ y. is_pending y.status) (sym same) ∙ is_first x b)
                  | inr c ↦
                      let same = else_branch (leb x.id j.id) x j c ∙ e'' in
                      let (m, h) = first_pending_lem locked xs i (n ∙ ap some same) in (inr m, h)
                ]
          ]
      | inr b ↦ let (m, h) = first_pending_lem locked xs i (else_branch _ _ _ b ∙ e) in (inr m, h)
    ]
  where
    is_first :
        (y : TaskItem)
        → (is_pending y.status && not (locked y.id)) ≡ true
        → is_pending y.status ≡ true
    is_first y b = ground arith

module _ (i : TaskItem) where
  pub All-without :
      (P : TaskItem → Type 0) (items : List TaskItem) → All P items → All P (without i.id items)
  All-without P [] h = tt
  All-without P (x ∷ xs) h = elim (Bool-cases (x.id == i.id)) [
    | inl e ↦ rw e h.1
    | inr e ↦ rw e (h.0, All-without P xs h.1)
  ]

  pub AreDistinct-without :
      (items : List TaskItem) → AreDistinct items → AreDistinct (without i.id items)
  AreDistinct-without [] h = tt
  AreDistinct-without (x ∷ xs) h = elim (Bool-cases (x.id == i.id)) [
    | inl e ↦ rw e h.1
    | inr e ↦ rw e (All-without (λ j. j.id ≢ x.id) xs h.0, AreDistinct-without xs h.1)
  ]

  no_match : (a b : ℕ) → (a == b) ≡ false → a ≢ b
  no_match a b e q = ground arith

  -- The item is out.
  pub without_out :
      (items : List TaskItem) → AreDistinct items → All (λ j. j.id ≢ i.id) (without i.id items)
  without_out [] h = tt
  without_out (x ∷ xs) h = elim (Bool-cases (x.id == i.id)) [
    | inl e ↦ rw e (subst (λ n. All (λ j. j.id ≢ n) xs) ((==_iff x.id i.id).0 e) h.0)
    | inr e ↦ rw e ((λ q. no_match x.id i.id e q), without_out xs h.1)
  ]

  pub length-without :
      (items : List TaskItem) → Elem i items → suc (length (without i.id items)) ≡ length items
  length-without (x ∷ xs) (inl e) = rw (same_id x i e) refl
  length-without (x ∷ xs) (inr m) = elim (Bool-cases (x.id == i.id)) [
    | inl e ↦ rw e refl
    | inr e ↦ rw e (ap suc (length-without xs m))
  ]
  length-without [] m = elim m [ ]

IsRunning-set_item :
    (id : ℕ) (g : TaskItem → TaskItem) (items : List TaskItem) (j : TaskItem)
    → ((i : TaskItem) → (g i).id ≡ i.id)
    → j.id ≢ id
    → IsRunning items j
    → IsRunning (set_item id g items) j
IsRunning-set_item id g items j keeps n (i, m, e, h, h') = (
  i,
  Elem-update (λ x. x.id == id) g keeps i items (differs i.id id (λ q. n (sym e ∙ q))) m,
  e,
  h,
  h',
)

pub All-map :
    (P Q R : TaskItem → Type 0) (items : List TaskItem)
    → ((i : TaskItem) → P i → Q i → R i)
    → All P items
    → All Q items
    → All R items
All-map P Q R [] f p q = tt
All-map P Q R (x ∷ xs) f p q = (f x p.0 q.0, All-map P Q R xs f p.1 q.1)

-- The items of the other workers, after a change of one row.
pub All-IsRunning-set_item :
    (id : ℕ) (g : TaskItem → TaskItem) (items copying : List TaskItem)
    → ((i : TaskItem) → (g i).id ≡ i.id)
    → All (λ j. j.id ≢ id) copying
    → All (IsRunning items) copying
    → All (IsRunning (set_item id g items)) copying
All-IsRunning-set_item id g items copying keeps =
    All-map (λ j. j.id ≢ id) (IsRunning items) (IsRunning (set_item id g items)) copying
      (λ j. IsRunning-set_item id g items j keeps)

-- Of the row of a claimed item, after a change of it.
pub total-claimed :
    (f : TaskItem → ℕ) (g : TaskItem → TaskItem) (items copying : List TaskItem) (j : TaskItem)
    → AreDistinct items
    → All (IsRunning items) copying
    → Elem j copying
    → (i : TaskItem) × (i.status ≡ ItemStatus.running)
      × (i.file_size ≡ j.file_size)
      × (total f (set_item j.id g items) + f i ≡ total f items + f (g i))
total-claimed f g items copying j d h m =
    let (i, n, e, s, z) = All_elem (IsRunning items) j copying h m in
    (
      i,
      s,
      z,
      subst (λ id. total f (set_item id g items) + f i ≡ total f items + f (g i)) e
          (total-set_item f g i items d n),
    )

skipped_one :
    (i : TaskItem) (s : ItemStatus)
    → i.status ≡ s
    → (one_done (if is_pending i.status then item_skipped i else i) ≡ one_done i)
      × (bytes_done (if is_pending i.status then item_skipped i else i) ≡ bytes_done i)
      × (one_pending (if is_pending i.status then item_skipped i else i) ≤ one_pending i)
skipped_one i ItemStatus.pending e = rw e (refl, refl, omega arith)
skipped_one i ItemStatus.running e = rw e (refl, refl, omega arith)
skipped_one i ItemStatus.done e = rw e (refl, refl, omega arith)
skipped_one i ItemStatus.failed e = rw e (refl, refl, omega arith)
skipped_one i ItemStatus.skipped e = rw e (refl, refl, omega arith)

-- What the cancelling of the pending items does to the sums.
pub total-pending_skipped :
    (items : List TaskItem)
    → (total one_done (update_rows (λ i. is_pending i.status) item_skipped items)
        ≡ total one_done items)
      × (total bytes_done (update_rows (λ i. is_pending i.status) item_skipped items)
          ≡ total bytes_done items)
      × (total one_pending (update_rows (λ i. is_pending i.status) item_skipped items)
          ≤ total one_pending items)
total-pending_skipped [] = (refl, refl, omega arith)
total-pending_skipped (x ∷ xs) =
    let (a, b, c) = total-pending_skipped xs in
    let (a', b', c') = skipped_one x x.status refl in
    (omega (arith, a, a'), omega (arith, b, b'), omega (arith, c, c'))

pub pending_weights :
    (i : TaskItem) (s : ItemStatus)
    → i.status ≡ s
    → is_pending i.status ≡ true
    → (one_done i ≡ 0) × (bytes_done i ≡ 0) × (one_pending i ≡ 1)
pending_weights i ItemStatus.pending e h = rw e (refl, refl, refl)
pending_weights i ItemStatus.running e h = let h' = rw e at h in cc
pending_weights i ItemStatus.done e h = let h' = rw e at h in cc
pending_weights i ItemStatus.failed e h = let h' = rw e at h in cc
pending_weights i ItemStatus.skipped e h = let h' = rw e at h in cc

AreDistinct-same :
    (a b : TaskItem) (items : List TaskItem)
    → AreDistinct items
    → Elem a items
    → Elem b items
    → a.id ≡ b.id
    → a ≡ b
AreDistinct-same a b (x ∷ xs) d (inl e) (inl e') h = e ∙ sym e'
AreDistinct-same a b (x ∷ xs) d (inr m) (inr n) h = AreDistinct-same a b xs d.1 m n h
AreDistinct-same a b (x ∷ xs) d (inl e) (inr n) h =
    absurd (All_elem (λ j. j.id ≢ x.id) b xs d.0 n (sym h ∙ ap (λ y. y.id) e))
AreDistinct-same a b (x ∷ xs) d (inr m) (inl e) h =
    absurd (All_elem (λ j. j.id ≢ x.id) a xs d.0 m (h ∙ ap (λ y. y.id) e))
AreDistinct-same a b [] d m n h = elim m [ ]

pub Elem-set_item :
    (g : TaskItem → TaskItem) (i : TaskItem) (items : List TaskItem)
    → Elem i items
    → Elem (g i) (set_item i.id g items)
Elem-set_item g i (x ∷ xs) (inl e) =
    inl (ap g e ∙ then_branch (x.id == i.id) (g x) x (same_id x i e))
Elem-set_item g i (x ∷ xs) (inr m) = inr (Elem-set_item g i xs m)
Elem-set_item g i [] m = elim m [ ]

-- A pending item is not among the claimed ones.
pub pending_unclaimed :
    (items copying : List TaskItem) (i : TaskItem)
    → AreDistinct items
    → All (IsRunning items) copying
    → Elem i items
    → is_pending i.status ≡ true
    → All (λ j. j.id ≢ i.id) copying
pending_unclaimed items [] i d h m p = tt
pending_unclaimed items (j ∷ js) i d ((k, n, e, s, z), h) m p = (
  (λ q.
      let same = AreDistinct-same k i items d n m (e ∙ q) in
      let p' = ap (λ y. is_pending y.status) same ∙ p in clash k p' s),
  pending_unclaimed items js i d h m p,
)
  where
    clash : (k : TaskItem) → is_pending k.status ≡ true → k.status ≡ ItemStatus.running → ⊥
    clash k p s = let p' = rw s at p in cc

pub add_positive_lem : (n d : ℕ) → add_positive n d ≡ n + d
add_positive_lem n d = ground arith
