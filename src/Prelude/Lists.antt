-- ===== src/Prelude/Lists.antt =====
-- Lists measured by the native numbers.
use Prim.Native.Nat.{ℕ, zero, suc, ◌+◌, ◌≤◌}
use mathlib.Core.Path.{◌≡◌, refl, sym, ap, subst, ◌∙◌}
use mathlib.Core.Logic.{◌⊎◌, inl, inr}
use mathlib.Core.Bool.{Bool, true, false}
use mathlib.Core.List.{List, [], ◌∷◌, ◌++◌, map}
use native.Mathlib.Omega.{arith}
use omniflow_go.Prelude.Tests.{if◌then◌else◌}

module _ {ℓ} {A : Type ℓ} where
  abbrev pub length : List A → ℕ
  length [] = 0
  length (x ∷ xs) = suc (length xs)

  pub length-append : (xs ys : List A) → length (xs ++ ys) ≡ length xs + length ys
  length-append [] ys = omega arith
  length-append (x ∷ xs) ys = omega (arith, length-append xs ys)

  -- The first `n` entries.
  abbrev pub take : ℕ → List A → List A
  take zero xs = []
  take (suc n) [] = []
  take (suc n) (x ∷ xs) = x ∷ take n xs

  pub length-take_le : (n : ℕ) (xs : List A) → length (take n xs) ≤ n
  length-take_le zero xs = omega arith
  length-take_le (suc n) [] = omega arith
  length-take_le (suc n) (x ∷ xs) = omega (arith, length-take_le n xs)

  -- The longest prefix whose entries all pass the test, and what stands behind it.
  abbrev pub take_while : (A → Bool) → List A → List A
  take_while p [] = []
  take_while p (x ∷ xs) = if p x then x ∷ take_while p xs else []

  abbrev pub drop_while : (A → Bool) → List A → List A
  drop_while p [] = []
  drop_while p (x ∷ xs) = if p x then drop_while p xs else x ∷ xs

  pub length-take_while-drop_while :
      (p : A → Bool) (xs : List A) → length (take_while p xs) + length (drop_while p xs) ≡ length xs
  length-take_while-drop_while p [] = omega arith
  length-take_while-drop_while p (x ∷ xs) = ground (arith, length-take_while-drop_while p xs)

-- Every entry of the list has the property.
abbrev pub All {ℓ κ} : {A : Type ℓ} → (A → Type κ) → List A → Type κ
All P [] = Unit
All P (x ∷ xs) = P x × All P xs

-- Membership, with the place where the entry stands.
abbrev pub Elem : {A : Type 0} → A → List A → Type 0
Elem a [] = ⊥
Elem a (x ∷ xs) = (a ≡ x) ⊎ Elem a xs

module _ {A B : Type 0} (f : A → B) where
  pub Elem-map : (a : A) (xs : List A) → Elem a xs → Elem (f a) (map f xs)
  Elem-map a (x ∷ xs) (inl e) = inl (ap f e)
  Elem-map a (x ∷ xs) (inr m) = inr (Elem-map a xs m)
  Elem-map a [] m = elim m [ ]

  pub Elem-of_map : (b : B) (xs : List A) → Elem b (map f xs) → (a : A) × Elem a xs × (b ≡ f a)
  Elem-of_map b (x ∷ xs) (inl e) = (x, inl refl, e)
  Elem-of_map b (x ∷ xs) (inr m) = let (a, n, e) = Elem-of_map b xs m in (a, inr n, e)
  Elem-of_map b [] m = elim m [ ]

pub All_elem : {A : Type 0} (P : A → Type 0) (a : A) (xs : List A) → All P xs → Elem a xs → P a
All_elem P a (x ∷ xs) h (inl e) = subst P (sym e) h.0
All_elem P a (x ∷ xs) h (inr m) = All_elem P a xs h.1 m
All_elem P a [] h m = elim m [ ]

pub All-of : {A : Type 0} (P : A → Type 0) (xs : List A) → ((a : A) → Elem a xs → P a) → All P xs
All-of P [] h = tt
All-of P (x ∷ xs) h = (h x (inl refl), All-of P xs (λ a m. h a (inr m)))

pub length-map {ℓ κ} :
    {A : Type ℓ} {B : Type κ} (f : A → B) (xs : List A) → length (map f xs) ≡ length xs
length-map f [] = refl
length-map f (x ∷ xs) = ap suc (length-map f xs)

abbrev pub is_nil {ℓ} : {A : Type ℓ} → List A → Bool
is_nil [] = true
is_nil (x ∷ xs) = false

module _ {ℓ} {A : Type ℓ} where
  pub append-nil : (xs : List A) → xs ≡ xs ++ []
  append-nil [] = refl
  append-nil (x ∷ xs) = ap (λ ys. x ∷ ys) (append-nil xs)

  pub append_assoc : (xs ys zs : List A) → (xs ++ ys) ++ zs ≡ xs ++ (ys ++ zs)
  append_assoc [] ys zs = refl
  append_assoc (x ∷ xs) ys zs = ap (λ l. x ∷ l) (append_assoc xs ys zs)

pub map-map {ℓ κ ι} :
    {A : Type ℓ} {B : Type κ} {C : Type ι} (f : B → C) (g : A → B) (xs : List A)
    → map f (map g xs) ≡ map (λ x. f (g x)) xs
map-map f g [] = refl
map-map f g (x ∷ xs) = ap (λ ys. f (g x) ∷ ys) (map-map f g xs)

pub map-same {ℓ} : {A : Type ℓ} (xs : List A) → map (λ x. x) xs ≡ xs
map-same [] = refl
map-same (x ∷ xs) = ap (λ ys. x ∷ ys) (map-same xs)

-- Functions that agree map a list alike.
pub map_agree {ℓ κ} :
    {A : Type ℓ} {B : Type κ} (f g : A → B) (xs : List A)
    → ((x : A) → f x ≡ g x)
    → map f xs ≡ map g xs
map_agree f g [] h = refl
map_agree f g (x ∷ xs) h = ap (λ y. y ∷ map f xs) (h x) ∙ ap (λ ys. g x ∷ ys) (map_agree f g xs h)
