-- ===== src/Natural.antt =====
-- The natural name order of internal/repository/postgres/impl/node/node_sort.go. A rune is its code
-- point. The tables of Go's package unicode are parameters.
pub mod Laws
pub mod Loop
pub mod Sort
pub mod Transitive
pub mod Value
use omniflow_go.Prelude.{
  ℕ, zero, suc, ◌+◌, compare, Ordering, lt, eq, gt, ◌then◌, Bool, true, false, ◌&&◌, Option, none,
  some, List, [], ◌∷◌, ◌==◌, if◌then◌else◌, length, take_while, drop_while,
}

-- unicode.IsDigit and unicode.ToLower.
pub record Tables : Type 0 where
  pub is_digit : ℕ → Bool
  pub to_lower : ℕ → ℕ

-- `for leftNoZero < li && leftRunes[leftNoZero] == '0' { leftNoZero++ }`
unfoldable pub strip_zeros : List ℕ → List ℕ
strip_zeros run = drop_while (λ c. c == 48) run

-- The loop over the significant digits of two runs, which have the same number of them.
unfoldable pub compare_digits : List ℕ → List ℕ → Ordering
compare_digits (x ∷ xs) (y ∷ ys) = compare x y then compare_digits xs ys
compare_digits [] ys = eq
compare_digits (x ∷ xs) [] = eq

-- Two runs of digits: more significant digits, then the digits, then more leading zeros.
unfoldable pub compare_runs : List ℕ → List ℕ → Ordering
compare_runs left right =
    compare (length (strip_zeros left)) (length (strip_zeros right))
    then compare_digits (strip_zeros left) (strip_zeros right)
    then compare (length left) (length right)

module _ (u : Tables) where
  open u use {is_digit, to_lower}

  -- The branch for two digits compares the runs that they begin, the other one the two runes.
  unfoldable pub compare_heads : Bool → List ℕ → List ℕ → Ordering
  compare_heads true left right =
      compare_runs (take_while is_digit left) (take_while is_digit right)
  compare_heads false (x ∷ xs) (y ∷ ys) = compare (to_lower x) (to_lower y)
  compare_heads false [] right = eq
  compare_heads false (x ∷ xs) [] = eq

  -- What stands behind the part that was compared.
  unfoldable pub skip_head : Bool → List ℕ → List ℕ
  skip_head true text = drop_while is_digit text
  skip_head false [] = []
  skip_head false (x ∷ xs) = xs

  -- The loop, over what stands at `li` and at `ri`; the last tests compare the lengths of the
  -- whole names, `m` and `n`. `none` means that the fuel ran out.
  unfoldable pub natural_loop : ℕ → ℕ → ℕ → List ℕ → List ℕ → Option Ordering
  unfolding compare_heads skip_head
  natural_loop zero m n left right = none
  natural_loop (suc fuel) m n [] right = some (compare m n)
  natural_loop (suc fuel) m n (x ∷ xs) [] = some (compare m n)
  natural_loop (suc fuel) m n (x ∷ xs) (y ∷ ys) =
      let digits = is_digit x && is_digit y in
      elim (compare_heads digits (x ∷ xs) (y ∷ ys)) [
        | eq ↦ natural_loop fuel m n (skip_head digits (x ∷ xs)) (skip_head digits (y ∷ ys))
        | lt ↦ some lt
        | gt ↦ some gt
      ]

  unfoldable pub natural_compare : List ℕ → List ℕ → Option Ordering
  unfolding natural_loop
  natural_compare left right =
      natural_loop (suc (length left + length right)) (length left) (length right) left right
