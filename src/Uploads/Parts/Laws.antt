-- ===== src/Uploads/Parts/Laws.antt =====
-- What the sizes and the lists of parts that are given to the object store satisfy.
use omniflow_go.Prelude.{
  ℕ, zero, suc, ◌+◌, ◌-◌, ◌*◌, ◌/◌, ◌≤◌, ◌<◌, ◌≡◌, refl, ap, ◌∙◌, inl, inr, Bool, true, false, ◌&&◌,
  ◌||◌, not, List, [], ◌∷◌, ◌==◌, ltb, leb, arith, All, Elem, Bool-cases, length, length-map, map,
  ◌%◌,
}
use native.Mathlib.Nat.{mod-lt, div-add-mod'}
use omniflow_go.Text.{is_empty, trim_space}
use omniflow_go.Result.{ok, >>=-eq-ok, guard-eq-ok}
use omniflow_go.Uploads.{Mode, single, multipart}
use omniflow_go.Uploads.Parts.{
  direct_upload_default_part_size_bytes, div_int64, pick_upload_mode, CompletedPart, has_number,
  normalize_loop, insert_part, sort_parts, normalize_completed_parts,
}

ceiling_step :
    (n k q r : ℕ) → q * k + r ≡ n + k - 1 → r < k → 0 < k → 0 < n → ((q - 1) * k < n) × (n ≤ q * k)
ceiling_step n k zero r e l p h = absurd (omega arith)
ceiling_step n k (suc q) r e l p h =
    let drop : suc q - 1 ≡ q = omega arith in rw drop (omega arith, omega arith)

ceiling : (n k : ℕ) → 0 < k → 0 < n → (((n + k - 1) / k - 1) * k < n) × (n ≤ (n + k - 1) / k * k)
ceiling n k p h =
    ceiling_step n k ((n + k - 1) / k) ((n + k - 1) % k) (div-add-mod' (n + k - 1) k)
      (mod-lt (n + k - 1) p) p h

-- The parts cover the file, all of them are needed, and in the multipart mode their size, which the
-- last one need not reach, is at least the default.
abbrev pub IsCover : ℕ → Mode × ℕ × ℕ → Type 0
IsCover n (mode, part, total) =
    ((total - 1) * part < n)
    × (n ≤ total * part)
    × (mode ≡ multipart → direct_upload_default_part_size_bytes ≤ part)

IsCover-multipart :
    (n k : ℕ)
    → direct_upload_default_part_size_bytes ≤ k
    → 0 < n
    → IsCover n (multipart, k, (n + k - 1) / k)
IsCover-multipart n k p h = let (a, b) = ceiling n k (omega arith) h in (a, b, λ e. p)

single-multipart : single ≡ multipart → ⊥
single-multipart e = cc

-- A sum that an int64 holds is divided as it is.
div_int64_lem : (a b : ℕ) → a < 9223372036854775808 → div_int64 (a % 18446744073709551616) b ≡ a / b
div_int64_lem a b h =
    let small : a % 18446744073709551616 ≡ a = omega (arith, h) in
    let test : ltb a 9223372036854775808 ≡ true = ground arith in rw (small, test) refl

-- The mode and the sizes that are picked for a file of positive size: its parts cover it, without
-- the last one they do not, and in the multipart mode the part size is at least the default; if the
-- sizes of the file and of the configured and the default part are together below 2 ^ 63.
pub pick_upload_mode-IsCover :
    (file_size chunk : ℕ)
    → 0 < file_size
    → file_size + chunk + direct_upload_default_part_size_bytes < 9223372036854775808
    → IsCover file_size (pick_upload_mode file_size chunk)
unfolding pick_upload_mode
pick_upload_mode-IsCover n chunk h small = elim (Bool-cases (leb n 16777216)) [
  | inl b ↦ rw b (omega arith, omega arith, λ e. absurd (single-multipart e))
  | inr b ↦ rw b (elim (Bool-cases (ltb chunk 16777216)) [
    | inl c ↦
        rw (c, div_int64_lem (n + 16777216 - 1) 16777216 (omega (arith, small)))
          (IsCover-multipart n 16777216 (omega arith) h)
    | inr c ↦
        rw (c, div_int64_lem (n + chunk - 1) chunk (omega (arith, small)))
          (IsCover-multipart n chunk (ground arith) h)
  ])
]

abbrev pub trimmed : CompletedPart → CompletedPart
trimmed p = record p { e_tag = trim_space p.e_tag }

abbrev pub is_valid : CompletedPart → Bool
is_valid p = leb 1 p.part_number && not (is_empty p.e_tag)

abbrev Differs : CompletedPart → CompletedPart → Type 0
Differs p q = p.part_number == q.part_number ≡ false

abbrev IsDistinct : List CompletedPart → Type 0
IsDistinct [] = Unit
IsDistinct (p ∷ ps) = All (Differs p) ps × IsDistinct ps

-- The numbers grow from part to part.
abbrev pub IsIncreasing : List CompletedPart → Type 0
IsIncreasing [] = Unit
IsIncreasing (p ∷ ps) = All (λ q. p.part_number < q.part_number) ps × IsIncreasing ps

All-weaken :
    (P Q : CompletedPart → Type 0) (ps : List CompletedPart)
    → ((p : CompletedPart) → P p → Q p)
    → All P ps
    → All Q ps
All-weaken P Q [] f h = tt
All-weaken P Q (p ∷ ps) f h = (f p h.0, All-weaken P Q ps f h.1)

-- What the loop gives out: the parts with their tags trimmed, valid, unseen and distinct.
loop_lem :
    (seen : List ℕ) (ps out : List CompletedPart)
    → normalize_loop seen ps ≡ ok out
    → (out ≡ map trimmed ps)
      × All (λ p. is_valid p ≡ true) out
      × All (λ p. has_number p.part_number seen ≡ false) out
      × IsDistinct out
unfolding normalize_loop
loop_lem seen [] out h = let e : [] ≡ out = ground arith in rw (← e) (refl, tt, tt, tt)
loop_lem seen (p ∷ ps) out h =
    let (a, h₁) = guard-eq-ok (not (ltb p.part_number 1 || is_empty (trim_space p.e_tag))) _ _ h in
    let (b, h₂) = guard-eq-ok (not (has_number p.part_number seen)) _ _ h₁ in
    let (rest, q, h₃) = >>=-eq-ok (normalize_loop (p.part_number ∷ seen) ps) _ h₂ in
    let e : trimmed p ∷ rest ≡ out = ground arith in
    let (same, valid, unseen, distinct) = loop_lem (p.part_number ∷ seen) ps rest q in
    rw (← e) (
      ap (λ r. trimmed p ∷ r) same,
      (ground arith, valid),
      (
        ground arith,
        All-weaken _ (λ r. has_number r.part_number seen ≡ false) rest (λ r k. ground arith) unseen,
      ),
      (All-weaken _ (Differs (trimmed p)) rest (λ r k. ground arith) unseen, distinct),
    )

All-insert_part :
    (P : CompletedPart → Type 0) (p : CompletedPart) (qs : List CompletedPart)
    → P p
    → All P qs
    → All P (insert_part p qs)
unfolding insert_part
All-insert_part P p [] h hs = (h, tt)
All-insert_part P p (q ∷ qs) h hs =
    let rest = All-insert_part P p qs h hs.1 in
    elim (Bool-cases (ltb q.part_number p.part_number)) [
      | inl b ↦ rw b (hs.0, rest)
      | inr b ↦ rw b (h, hs)
    ]

IsIncreasing-insert_part :
    (p : CompletedPart) (qs : List CompletedPart)
    → All (Differs p) qs
    → IsIncreasing qs
    → IsIncreasing (insert_part p qs)
unfolding insert_part
IsIncreasing-insert_part p [] d h = (tt, tt)
IsIncreasing-insert_part p (q ∷ qs) d h =
    let rest = IsIncreasing-insert_part p qs d.1 h.1 in
    elim (Bool-cases (ltb q.part_number p.part_number)) [
      | inl b ↦ rw b (All-insert_part _ p qs (ground arith) h.0, rest)
      | inr b ↦
          let l : p.part_number < q.part_number = ground (arith, d.0) in
          rw b (
            (l, All-weaken _ (λ r. p.part_number < r.part_number) qs (λ r k. omega (arith, k)) h.0),
            h,
          )
    ]

All-sort_parts :
    (P : CompletedPart → Type 0) (ps : List CompletedPart) → All P ps → All P (sort_parts ps)
unfolding sort_parts
All-sort_parts P [] h = tt
All-sort_parts P (p ∷ ps) h = All-insert_part P p (sort_parts ps) h.0 (All-sort_parts P ps h.1)

IsIncreasing-sort_parts : (ps : List CompletedPart) → IsDistinct ps → IsIncreasing (sort_parts ps)
unfolding sort_parts
IsIncreasing-sort_parts [] h = tt
IsIncreasing-sort_parts (p ∷ ps) h =
    IsIncreasing-insert_part p (sort_parts ps) (All-sort_parts (Differs p) ps h.0)
      (IsIncreasing-sort_parts ps h.1)

Elem-insert_part :
    (x p : CompletedPart) (qs : List CompletedPart) → Elem x (p ∷ qs) → Elem x (insert_part p qs)
unfolding insert_part
Elem-insert_part x p [] m = m
Elem-insert_part x p (q ∷ qs) m =
    let from = Elem-insert_part x p qs in
    elim (Bool-cases (ltb q.part_number p.part_number)) [
      | inl b ↦ rw b (elim m [
        | inl e ↦ inr (from (inl e))
        | inr (inl e) ↦ inl e
        | inr (inr n) ↦ inr (from (inr n))
      ])
      | inr b ↦ rw b m
    ]

Elem-sort_parts : (x : CompletedPart) (ps : List CompletedPart) → Elem x ps → Elem x (sort_parts ps)
unfolding sort_parts
Elem-sort_parts x (p ∷ ps) (inl e) = Elem-insert_part x p (sort_parts ps) (inl e)
Elem-sort_parts x (p ∷ ps) (inr m) =
    Elem-insert_part x p (sort_parts ps) (inr (Elem-sort_parts x ps m))
Elem-sort_parts x [] m = elim m [ ]

length-insert_part :
    (p : CompletedPart) (qs : List CompletedPart) → length (insert_part p qs) ≡ suc (length qs)
unfolding insert_part
length-insert_part p [] = refl
length-insert_part p (q ∷ qs) = ground (arith, length-insert_part p qs)

length-sort_parts : (ps : List CompletedPart) → length (sort_parts ps) ≡ length ps
unfolding sort_parts
length-sort_parts [] = refl
length-sort_parts (p ∷ ps) =
    ground (arith, length-insert_part p (sort_parts ps), length-sort_parts ps)

-- The list that is given to the object store, where there is one: its numbers grow, each is at least
-- 1, no tag is empty, it is as long as the client's list, and every part of that with its tag trimmed
-- is in it.
pub normalize_completed_parts-IsIncreasing :
    (parts out : List CompletedPart)
    → normalize_completed_parts parts ≡ ok out
    → IsIncreasing out
      × All (λ p. is_valid p ≡ true) out
      × (length out ≡ length parts)
      × ((p : CompletedPart) → Elem p (map trimmed parts) → Elem p out)
unfolding normalize_completed_parts
normalize_completed_parts-IsIncreasing [] out h = absurd (ground arith)
normalize_completed_parts-IsIncreasing (p ∷ ps) out h =
    let (parts, q, h₁) = >>=-eq-ok (normalize_loop [] (p ∷ ps)) _ h in
    let e : sort_parts parts ≡ out = ground arith in
    let (same, valid, _, distinct) = loop_lem [] (p ∷ ps) parts q in
    rw (← e) (
      IsIncreasing-sort_parts parts distinct,
      All-sort_parts _ parts valid,
      length-sort_parts parts ∙ ap length same ∙ length-map trimmed (p ∷ ps),
      λ x m. Elem-sort_parts x parts (rw same m),
    )
