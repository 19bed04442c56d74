-- ===== src/Bookmarks/Cycle/Climb.antt =====
-- The loop of ensureMoveTarget on a tree, and on rows that are none.
use omniflow_go.Prelude.{
  ℕ, zero, suc, ◌<◌, ◌≡◌, refl, sym, ap, ◌∙◌, ◌↔◌, inl, inr, true, false, none, some, List, [], ◌∷◌,
  ◌==◌, Elem, arith, Bool-cases, Option-cases, subst,
}
use omniflow_go.Text.{eqb}
use omniflow_go.Result.{Error, Result, ok, err}
use omniflow_go.Bookmarks.{Bookmark, is_owned, kind_folder}
use omniflow_go.Bookmarks.Cycle.{parent_by_id, climb}

-- The parents of the row lead to a row with no parent, through folders of the owner.
pub data Hangs (owner : ℕ) (rows : List Bookmark) : Bookmark → Type 0 where
  top :
      (r : Bookmark) → Elem r rows → is_owned owner r ≡ true → r.parent ≡ none → Hangs owner rows r
  under :
      (r p : Bookmark)
      → Hangs owner rows p
      → Elem r rows
      → is_owned owner r ≡ true
      → r.parent ≡ some p.id
      → eqb p.kind kind_folder ≡ true
      → Hangs owner rows r

-- Every row of the owner hangs on the top level, below folders: there is no cycle.
abbrev pub IsTree : ℕ → List Bookmark → Type 0
IsTree owner rows = (r : Bookmark) → Elem r rows → is_owned owner r ≡ true → Hangs owner rows r

-- The primary key, which is positive.
abbrev pub HasBookmarkKeys : List Bookmark → Type 0
HasBookmarkKeys rows =
    ((q r : Bookmark) → Elem q rows → Elem r rows → q.id ≡ r.id → q ≡ r)
    × ((r : Bookmark) → Elem r rows → 0 < r.id)

-- The same without the row `id`.
pub data Avoids (id owner : ℕ) (rows : List Bookmark) : Bookmark → Type 0 where
  top :
      (r : Bookmark)
      → Elem r rows
      → is_owned owner r ≡ true
      → r.parent ≡ none
      → ¬ (r.id ≡ id)
      → Avoids id owner rows r
  under :
      (r p : Bookmark)
      → Avoids id owner rows p
      → Elem r rows
      → is_owned owner r ≡ true
      → r.parent ≡ some p.id
      → eqb p.kind kind_folder ≡ true
      → ¬ (r.id ≡ id)
      → Avoids id owner rows r

pub Hangs-Elem :
    (owner : ℕ) (rows : List Bookmark) (r : Bookmark)
    → Hangs owner rows r
    → Elem r rows × (is_owned owner r ≡ true)
Hangs-Elem owner rows r (Hangs.top q m o e) = (m, o)
Hangs-Elem owner rows r (Hangs.under q p w m o e k) = (m, o)

pub parent_by_id_source :
    (rows : List Bookmark) (i p : ℕ)
    → parent_by_id rows i ≡ some p
    → (r : Bookmark) × Elem r rows × (r.id ≡ i) × (r.parent ≡ some p)
unfolding parent_by_id
parent_by_id_source [] i p h = absurd (ground arith)
parent_by_id_source (r ∷ rs) i p h = elim (Option-cases (parent_by_id rs i)) [
  | inl e ↦ let h' = rw e at h in (r, inl refl, ground arith, ground arith)
  | inr (q, e) ↦
      let h' = rw e at h in
      let (x, m, a, b) = parent_by_id_source rs i p (ground arith) in (x, inr m, a, b)
]

parent_by_id-some :
    (rows : List Bookmark) (r : Bookmark) (j : ℕ)
    → Elem r rows
    → r.parent ≡ some j
    → (p : ℕ) × (parent_by_id rows r.id ≡ some p)
unfolding parent_by_id
parent_by_id-some [] r j m e = absurd m
parent_by_id-some (x ∷ xs) r j m e = elim (Option-cases (parent_by_id xs r.id)) [
  | inr (p, q) ↦ (p, rw q refl)
  | inl q ↦ elim m [
    | inl same ↦ (j, rw q (ground (arith, ap (λ b. b.id) same, ap (λ b. b.parent) same)))
    | inr n ↦ let (p, k) = parent_by_id-some xs r j n e in absurd (ground arith)
  ]
]

-- The rows that ensureMoveTarget reads.
abbrev pub IsListing : ℕ → List Bookmark → List Bookmark → Type 0
IsListing owner rows listed =
    (r : Bookmark) → Elem r listed ↔ (Elem r rows × (is_owned owner r ≡ true))

module _ (owner : ℕ) (rows listed : List Bookmark) (keys : HasBookmarkKeys rows)
    (list : IsListing owner rows listed) where
  pub parent_of :
      (r : Bookmark) → Elem r rows → is_owned owner r ≡ true → parent_by_id listed r.id ≡ r.parent
  parent_of r m o = elim (Option-cases (parent_by_id listed r.id)) [
    | inr (p, e) ↦
        let (x, n, a, b) = parent_by_id_source listed r.id p e in
        let same : x ≡ r = keys.0 x r ((list x).0 n).0 m a in e ∙ sym b ∙ ap (λ q. q.parent) same
    | inl e ↦ elim (Option-cases r.parent) [
      | inl none_there ↦ e ∙ sym none_there
      | inr (j, b) ↦
          let (p, k) = parent_by_id-some listed r j ((list r).1 (m, o)) b in absurd (ground arith)
    ]
  ]

  pub climb_here :
      (fuel id cursor : ℕ)
      → 0 < cursor
      → climb (suc fuel) listed id cursor ≡ some (ok tt)
      → ¬ (cursor ≡ id)
  unfolding climb
  climb_here fuel id cursor pos h same =
      let a : cursor == 0 ≡ false = ground arith in
      let b : cursor == id ≡ true = ground arith in let h' = rw (a, b) at h in ground arith

  climb_on :
      (fuel id cursor next : ℕ)
      → 0 < cursor
      → ¬ (cursor ≡ id)
      → parent_by_id listed cursor ≡ some next
      → next == cursor ≡ false
      → climb (suc fuel) listed id cursor ≡ climb fuel listed id next
  unfolding climb
  climb_on fuel id cursor next pos other up on =
      let a : cursor == 0 ≡ false = ground arith in
      let b : cursor == id ≡ false = ground arith in rw (a, b, up, on) refl

  -- A loop that ends without an error has not met the bookmark.
  pub climb-Avoids :
      (fuel id : ℕ) (r : Bookmark)
      → Hangs owner rows r
      → climb fuel listed id r.id ≡ some (ok tt)
      → Avoids id owner rows r
  climb-Avoids zero id r w h = absurd (unfold climb in ground arith)
  climb-Avoids (suc fuel) id r (Hangs.top q m o e) h =
      Avoids.top q m o e (climb_here fuel id q.id (keys.1 q m) h)
  climb-Avoids (suc fuel) id r (Hangs.under q p w m o e k) h =
      let up = parent_of q m o ∙ e in
      let other = climb_here fuel id q.id (keys.1 q m) h in
      elim (Bool-cases (p.id == q.id)) [
        | inl loop ↦
            let same : p.id ≡ q.id = ground arith in
            Avoids.under q p
              (climb-Avoids (suc fuel) id p w
                (subst (λ j. climb (suc fuel) listed id j ≡ some (ok tt)) (sym same) h))
              m o e k other
        | inr on ↦
            Avoids.under q p
              (climb-Avoids fuel id p w
                (sym (climb_on fuel id q.id p.id (keys.1 q m) other up on) ∙ h))
              m o e k other
      ]

  climb_top :
      (fuel id cursor : ℕ)
      → parent_by_id listed cursor ≡ none
      → (x : Result (Unit {0})) × (climb (suc fuel) listed id cursor ≡ some x)
  unfolding climb
  climb_top fuel id cursor h = elim (Bool-cases (cursor == 0)) [
    | inl a ↦ (ok tt, rw a refl)
    | inr a ↦ elim (Bool-cases (cursor == id)) [
      | inl b ↦ (err Error.invalid_argument, rw (a, b) refl)
      | inr b ↦ (ok tt, rw (a, b, h) refl)
    ]
  ]

  climb_step :
      (fuel id cursor next : ℕ) (x : Result (Unit {0}))
      → parent_by_id listed cursor ≡ some next
      → climb fuel listed id next ≡ some x
      → (y : Result (Unit {0})) × (climb (suc fuel) listed id cursor ≡ some y)
  unfolding climb
  climb_step fuel id cursor next x h k = elim (Bool-cases (cursor == 0)) [
    | inl a ↦ (ok tt, rw a refl)
    | inr a ↦ elim (Bool-cases (cursor == id)) [
      | inl b ↦ (err Error.invalid_argument, rw (a, b) refl)
      | inr b ↦ elim (Bool-cases (next == cursor)) [
        | inl c ↦ (ok tt, rw (a, b, h, c) refl)
        | inr c ↦ (x, rw (a, b, h, c) k)
      ]
    ]
  ]

  -- On a tree the loop ends, whatever the bookmark.
  pub climb_ends :
      (id : ℕ) (r : Bookmark)
      → Hangs owner rows r
      → (fuel : ℕ) × (x : Result (Unit {0})) × (climb fuel listed id r.id ≡ some x)
  climb_ends id r (Hangs.top q m o e) =
      let (x, h) = climb_top 0 id q.id (parent_of q m o ∙ e) in (1, x, h)
  climb_ends id r (Hangs.under q p w m o e k) =
      let (fuel, x, h) = climb_ends id p w in
      let (y, k') = climb_step fuel id q.id p.id x (parent_of q m o ∙ e) h in (suc fuel, y, k')

-- Two rows that have each other for their parent, and a bookmark that is neither: the loop goes on.
pub climb_circles :
    (rows : List Bookmark) (a b id : ℕ)
    → parent_by_id rows a ≡ some b
    → parent_by_id rows b ≡ some a
    → ¬ (a ≡ b)
    → (0 < a) × (0 < b)
    → ¬ (id ≡ a)
    → ¬ (id ≡ b)
    → (fuel : ℕ) → climb fuel rows id a ≡ none
unfolding climb
climb_circles rows a b id up down apart (pa, pb) na nb zero = refl
climb_circles rows a b id up down apart (pa, pb) na nb (suc fuel) =
    let rest = climb_circles rows b a id down up (λ e. apart (sym e)) (pb, pa) nb na fuel in
    let x : a == 0 ≡ false = ground arith in
    let y : a == id ≡ false = ground arith in
    let z : b == a ≡ false = ground arith in rw (x, y, up, z) rest
