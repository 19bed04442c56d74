-- ===== src/Store/Memory/Recursive.antt =====
-- The recursive query on a list of rows, in rounds; the result is given out if it is closed.
use omniflow_go.Prelude.{
  ℕ, zero, suc, ◌≡◌, refl, sym, ◌↔◌, Bool, true, false, ◌&&◌, not, Option, none, some, List, [],
  ◌∷◌, arith, Bool-cases, ◌⊎◌, inl, inr, if◌then◌else◌, Elem, length, ◌==◌, ◌||◌,
}
use omniflow_go.Result.{Result, ok, err, other}
use omniflow_go.Store.{Row, Sub}

holds : ℕ → List ℕ → Bool
holds i [] = false
holds i (j ∷ js) = i == j || holds i js

holds_lem : (i : ℕ) (js : List ℕ) → (holds i js ≡ true) ↔ Elem i js
unfolding holds
holds_lem i [] = (λ h. cc, λ m. absurd m)
holds_lem i (j ∷ js) = let (to, from) = holds_lem i js in (λ h. ground arith, λ m. ground arith)

abbrev parent_in : List ℕ → Option ℕ → Bool
parent_in ids none = false
parent_in ids (some j) = holds j ids

seeds : (Row → Bool) → List Row → List ℕ
seeds p [] = []
seeds p (r ∷ rs) = let rest = seeds p rs in if p r then r.id ∷ rest else rest

joins : (Row → Bool) → List ℕ → Row → Bool
joins step ids r = step r && parent_in ids r.parent && not (holds r.id ids)

parent_in_cases :
    (ids : List ℕ) (p : Option ℕ)
    → ((j : ℕ) × (p ≡ some j) × Elem j ids) ⊎ (parent_in ids p ≡ false)
parent_in_cases ids none = inr refl
parent_in_cases ids (some j) = elim (Bool-cases (holds j ids)) [
  | inl b ↦ inl (j, refl, (holds_lem j ids).0 b)
  | inr b ↦ inr b
]

-- One pass over the rows that are left, `ids` being known.
pass : (Row → Bool) → List ℕ → List Row → List ℕ
pass step ids [] = ids
pass step ids (r ∷ rs) = pass step (if joins step ids r then r.id ∷ ids else ids) rs

rounds : ℕ → (Row → Bool) → List Row → List ℕ → List ℕ
rounds zero step rows ids = ids
rounds (suc n) step rows ids = rounds n step rows (pass step ids rows)

is_closed : (Row → Bool) → List ℕ → List Row → Bool
is_closed p ids [] = true
is_closed p ids (r ∷ rs) = (not (p r) || holds r.id ids) && is_closed p ids rs

sub_ids : (Row → Bool) → (Row → Bool) → List Row → List ℕ
sub_ids seed step rows = rounds (length rows) step rows (seeds seed rows)

unfoldable pub sub_list : (Row → Bool) → (Row → Bool) → List Row → Result (List ℕ)
unfolding sub_ids holds seeds joins pass rounds is_closed
sub_list seed step rows =
    let ids = sub_ids seed step rows in
    if is_closed seed ids rows && is_closed (λ r. step r && parent_in ids r.parent) ids rows
    then ok ids
    else err (other 1)

is_closed_lem :
    (p : Row → Bool) (ids : List ℕ) (rows : List Row) (r : Row)
    → is_closed p ids rows ≡ true
    → Elem r rows
    → p r ≡ true
    → Elem r.id ids
unfolding is_closed
is_closed_lem p ids [] r h m b = absurd m
is_closed_lem p ids (q ∷ qs) r h (inl e) b =
    let b' : p q ≡ true = rw e at b in rw e ((holds_lem q.id ids).0 (ground arith))
is_closed_lem p ids (q ∷ qs) r h (inr m) b = is_closed_lem p ids qs r (ground arith) m b

module _ (rows : List Row) (seed step : Row → Bool) where
  abbrev Sound : List ℕ → Type 0
  Sound ids = (i : ℕ) → Elem i ids → Sub rows seed step i

  seeds-Sound : (rs : List Row) → ((r : Row) → Elem r rs → Elem r rows) → Sound (seeds seed rs)
  unfolding seeds
  seeds-Sound [] sub i m = absurd m
  seeds-Sound (r ∷ rs) sub i m = elim (Bool-cases (seed r)) [
    | inl b ↦
        let m' : (i ≡ r.id) ⊎ Elem i (seeds seed rs) = rw b at m in
        elim m' [
          | inl e ↦ Sub.seeded r (sub r (inl refl)) b (sym e)
          | inr n ↦ seeds-Sound rs (λ q k. sub q (inr k)) i n
        ]
    | inr b ↦ seeds-Sound rs (λ q k. sub q (inr k)) i (rw b at m)
  ]

  join-Sound :
      (r : Row) (ids : List ℕ)
      → Elem r rows
      → Sound ids
      → Sound (if joins step ids r then r.id ∷ ids else ids)
  unfolding joins
  join-Sound r ids n h i m = elim (Bool-cases (step r)) [
    | inl b ↦ elim (parent_in_cases ids r.parent) [
      | inl (j, p, k) ↦ elim (Bool-cases (joins step ids r)) [
        | inl c ↦
            let m' : (i ≡ r.id) ⊎ Elem i ids = rw c at m in
            elim m' [ inl e ↦ Sub.joined r (h j k) n b p (sym e) | inr l ↦ h i l ]
        | inr c ↦ h i (rw c at m)
      ]
      | inr q ↦ h i (rw (b, q) at m)
    ]
    | inr b ↦ h i (rw b at m)
  ]

  pass-Sound :
      (rs : List Row) (ids : List ℕ)
      → ((r : Row) → Elem r rs → Elem r rows)
      → Sound ids
      → Sound (pass step ids rs)
  unfolding pass
  pass-Sound [] ids sub h = h
  pass-Sound (r ∷ rs) ids sub h =
      pass-Sound rs (if joins step ids r then r.id ∷ ids else ids) (λ q k. sub q (inr k))
        (join-Sound r ids (sub r (inl refl)) h)

  rounds-Sound : (n : ℕ) (ids : List ℕ) → Sound ids → Sound (rounds n step rows ids)
  unfolding rounds
  rounds-Sound zero ids h = h
  rounds-Sound (suc n) ids h =
      rounds-Sound n (pass step ids rows) (pass-Sound rows ids (λ r m. m) h)

  Sub-complete :
      (ids : List ℕ)
      → is_closed seed ids rows ≡ true
      → is_closed (λ r. step r && parent_in ids r.parent) ids rows ≡ true
      → (i : ℕ) → Sub rows seed step i
      → Elem i ids
  Sub-complete ids a b i (Sub.seeded r m h e) = rw (← e) (is_closed_lem seed ids rows r a m h)
  Sub-complete ids a b i (Sub.joined {j = j} r u m h p e) = rw (← e) (
      is_closed_lem (λ q. step q && parent_in ids q.parent) ids rows r b m
        (rw (h, p) ((holds_lem j ids).1 (Sub-complete ids a b j u))))

  sub_ids-rows :
      is_closed seed (sub_ids seed step rows) rows ≡ true
      → is_closed
          (λ r. step r && parent_in (sub_ids seed step rows) r.parent)
          (sub_ids seed step rows)
          rows
        ≡ true
      → (i : ℕ) → Elem i (sub_ids seed step rows) ↔ Sub rows seed step i
  unfolding sub_ids
  sub_ids-rows a b i = (
    λ m. rounds-Sound (length rows) (seeds seed rows) (seeds-Sound rows (λ r n. n)) i m,
    λ u. Sub-complete (sub_ids seed step rows) a b i u,
  )

sub_list-ok :
    (seed step : Row → Bool) (rows : List Row) (ids : List ℕ)
    → sub_list seed step rows ≡ ok ids
    → (sub_ids seed step rows ≡ ids)
      × (is_closed seed (sub_ids seed step rows) rows ≡ true)
      × (is_closed
            (λ r. step r && parent_in (sub_ids seed step rows) r.parent)
            (sub_ids seed step rows)
            rows
          ≡ true)
unfolding sub_list
sub_list-ok seed step rows ids h = ground arith

pub sub_list_rows :
    (seed step : Row → Bool) (rows : List Row) (ids : List ℕ)
    → sub_list seed step rows ≡ ok ids
    → (i : ℕ) → Elem i ids ↔ Sub rows seed step i
sub_list_rows seed step rows ids h i =
    let (e, a, b) = sub_list-ok seed step rows ids h in rw (← e) (sub_ids-rows rows seed step a b i)
