-- ===== src/Text.antt =====
-- Text as the list of its runes (code points), with the functions of Go's packages strings, unicode
-- and fmt that the program calls on it.
pub mod Laws
use Prim.Native.Char.{code}
use Prim.Native.String.{String}
use omniflow_go.Prelude.{
  ℕ, zero, suc, ◌+◌, ◌/◌, ◌%◌, ◌<◌, Bool, true, false, ◌&&◌, ◌||◌, List, [], ◌∷◌, ◌++◌, ◌==◌, leb,
  ltb, if◌then◌else◌, drop_while,
}

abbrev pub Text : Type 0
Text = List ℕ

-- The runes of a literal. `String` has its own `[]` and `∷`.
abbrev pub codes : String → Text
codes String.[] = []
codes (String.◌∷◌ c s) = code c ∷ codes s

-- `==` of strings.
unfoldable pub eqb : Text → Text → Bool
eqb [] [] = true
eqb (x ∷ xs) (y ∷ ys) = x == y && eqb xs ys
eqb [] (y ∷ ys) = false
eqb (x ∷ xs) [] = false

-- A set of strings is used for its membership test alone.
unfoldable pub contains : List Text → Text → Bool
unfolding eqb
contains [] t = false
contains (s ∷ rest) t = eqb s t || contains rest t

-- unicode.IsSpace
unfoldable pub is_space : ℕ → Bool
is_space c =
    (leb 9 c && leb c 13)
    || c == 32
    || c == 0x85
    || c == 0xa0
    || c == 0x1680
    || (leb 0x2000 c && leb c 0x200a)
    || c == 0x2028
    || c == 0x2029
    || c == 0x202f
    || c == 0x205f
    || c == 0x3000

abbrev pub is_empty : Text → Bool
is_empty [] = true
is_empty (x ∷ xs) = false

unfoldable pub trim_right : Text → Text
unfolding is_space
trim_right [] = []
trim_right (x ∷ xs) =
    let rest = trim_right xs in if is_space x && is_empty rest then [] else x ∷ rest

-- strings.TrimSpace
unfoldable pub trim_space : Text → Text
unfolding trim_right
trim_space t = trim_right (drop_while is_space t)

-- strings.TrimPrefix(t, "."), for the byte of "."
unfoldable pub trim_dot : Text → Text
trim_dot [] = []
trim_dot (x ∷ xs) = if x == b'.' then xs else x ∷ xs

-- The digits of a number, the fuel being at least their count; fmt's "%d" gives `suc n`.
decimal_loop : ℕ → ℕ → Text → Text
decimal_loop zero n out = out
decimal_loop (suc fuel) n out =
    let rest = decimal_loop fuel (n / 10) ((48 + n % 10) ∷ out) in
    if leb n 9 then (48 + n) ∷ out else rest

unfoldable pub decimal : ℕ → Text
unfolding decimal_loop
decimal n = decimal_loop (suc n) n []

-- `<` of strings: the order of UTF-8 is that of the code points.
unfoldable pub text_less : Text → Text → Bool
text_less [] [] = false
text_less [] (y ∷ ys) = true
text_less (x ∷ xs) [] = false
text_less (x ∷ xs) (y ∷ ys) = ltb x y || (x == y && text_less xs ys)

-- sort.Strings
unfoldable pub insert_text : Text → List Text → List Text
unfolding text_less
insert_text t [] = t ∷ []
insert_text t (s ∷ rest) = if text_less s t then s ∷ insert_text t rest else t ∷ s ∷ rest

unfoldable pub sort_texts : List Text → List Text
unfolding insert_text
sort_texts [] = []
sort_texts (t ∷ rest) = insert_text t (sort_texts rest)

-- The texts whose first occurrence this is, `seen` having come before.
unfoldable pub unique_texts : List Text → List Text → List Text
unfolding contains
unique_texts seen [] = []
unique_texts seen (t ∷ rest) =
    let more = unique_texts (t ∷ seen) rest in
    let same = unique_texts seen rest in if contains seen t then same else t ∷ more

-- path.Ext: the suffix from the last dot of the last element, `seen` being the suffix from the last
-- dot so far.
unfoldable pub ext_loop : Text → Text → Text
ext_loop seen [] = seen
ext_loop seen (c ∷ cs) =
    if c == b'/'
    then ext_loop [] cs
    else if c == b'.'
    then ext_loop (c ∷ cs) cs
    else ext_loop seen cs

abbrev pub path_ext : Text → Text
path_ext t = ext_loop [] t
