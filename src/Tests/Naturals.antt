-- ===== src/Tests/Naturals.antt =====
-- The natural order on names of chapters, with the tables cut down to ASCII and one more digit.
use mathlib.Core.Option
use omniflow_go.Prelude.{
  flip, ◌+◌, ◌≡◌, refl, Ordering, lt, gt, ◌&&◌, ◌||◌, some, [], ◌∷◌, arith, ◌==◌, leb,
  if◌then◌else◌, compare, ◌then◌, length,
}
use omniflow_go.Text.{Text, codes}
use omniflow_go.Natural.{Tables, compare_runs, compare_digits, strip_zeros, natural_compare}
use omniflow_go.Natural.Loop.{natural_compare_total, natural_compare-flip}
use omniflow_go.Natural.Transitive.{natural_compare_cycle}
use omniflow_go.Natural.Value.{value, compare_runs-value}

-- U+0663 is ARABIC-INDIC DIGIT THREE.
abbrev pub tables : Tables
tables = record {
  is_digit = λ c. (leb 48 c && leb c 57) || c == 0x663;
  to_lower = λ c. if leb 65 c && leb c 90 then c + 32 else c;
}

abbrev second : Text
second = codes "Ch2"

abbrev tenth : Text
tenth = codes "ch010"

abbrev tenth_b : Text
tenth_b = codes "ch10b"

second-tenth : natural_compare tables second tenth ≡ some lt
unfolding natural_compare compare_runs compare_digits strip_zeros
second-tenth = refl

tenth-tenth_b : natural_compare tables tenth tenth_b ≡ some gt
unfolding natural_compare compare_runs compare_digits strip_zeros
tenth-tenth_b = refl

natural_compare_total_example : (o : Ordering) × (natural_compare tables second tenth ≡ some o)
natural_compare_total_example = natural_compare_total tables second tenth

natural_compare-flip_example :
    natural_compare tables tenth second ≡ Option.map flip (natural_compare tables second tenth)
natural_compare-flip_example = natural_compare-flip tables second tenth

natural_compare_cycle_example :
    (natural_compare tables (0x663 ∷ []) (57 ∷ 57 ∷ []) ≡ some lt)
    × (natural_compare tables (57 ∷ 57 ∷ []) (122 ∷ []) ≡ some lt)
    × (natural_compare tables (122 ∷ []) (0x663 ∷ []) ≡ some lt)
natural_compare_cycle_example =
    natural_compare_cycle tables 0x663 refl refl refl refl refl refl (omega arith)

compare_runs-value_example : compare_runs (codes "010") (codes "9") ≡ (
    compare (value (codes "010")) (value (codes "9"))
    then compare (length (codes "010")) (length (codes "9")))
compare_runs-value_example =
    compare_runs-value (codes "010") (codes "9") (omega arith) (omega arith)
