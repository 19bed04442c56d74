-- ===== src/Names.antt =====
-- Visible names and the automatic renaming of internal/usecase/node_name_conflict.go, and the
-- repository's own rendering of a visible name (repository/postgres/impl/node/node_write.go).
pub mod Laws
use omniflow_go.Prelude.{
  ℕ, zero, suc, ◌+◌, ◌-◌, Bool, true, false, ◌&&◌, ◌||◌, not, List, [], ◌∷◌, ◌++◌, map, ◌==◌, leb,
  if◌then◌else◌, length, take,
}
use omniflow_go.Text.{Text, codes, eqb, contains, is_empty, trim_space, trim_dot, decimal}
use omniflow_go.Result.{Error, Result, ok, err, conflict, invalid_argument}

-- domainnode.Type
pub data NodeType : Type 0 where
  dir file : NodeType

abbrev pub is_file : NodeType → Bool
is_file dir = false
is_file file = true

-- The fields of a node that its visible name is made of.
pub record Sibling : Type 0 where
  pub name : Text
  pub ext : Text
  pub type : NodeType

-- "error", "auto_rename" and "replace".
pub data ConflictPolicy : Type 0 where
  error auto_rename replace : ConflictPolicy

abbrev pub max_node_name_length : ℕ
max_node_name_length = 255

-- maxNodeExtLength of internal/usecase/node.go.
abbrev pub max_node_ext_length : ℕ
max_node_ext_length = 32

abbrev pub max_auto_rename_candidate_attempt : ℕ
max_auto_rename_candidate_attempt = 10000

unfoldable pub normalize_node_ext : Text → Text
unfolding trim_space trim_dot
normalize_node_ext ext = trim_dot (trim_space ext)

unfoldable pub node_visible_name : Text → Text → NodeType → Text
unfolding normalize_node_ext
node_visible_name name ext type =
    if is_file type && not (is_empty (normalize_node_ext ext))
    then trim_space name ++ (b'.' ∷ normalize_node_ext ext)
    else trim_space name

-- The repository's codes of the two types, `nodeTypeDirectory` and `nodeTypeFile`.
unfoldable pub node_type_code : NodeType → ℕ
node_type_code dir = 0
node_type_code file = 1

unfoldable pub domain_type_code : ℕ → NodeType
domain_type_code t = if t == 1 then file else dir

unfoldable pub build_visible_name : Text → Text → ℕ → Text
build_visible_name name ext type =
    if type == 1 && not (is_empty (trim_dot (trim_space ext)))
    then trim_space name ++ (b'.' ∷ trim_dot (trim_space ext))
    else trim_space name

unfoldable pub truncate_node_name_for_suffix : Text → Text → Text
truncate_node_name_for_suffix name suffix =
    let available = max_node_name_length - length suffix in
    if available == 0 then [] else if leb (length name) available then name else take available name

-- fmt.Sprintf(" (%d)", index), and the name that it ends.
unfoldable pub suffix_of : ℕ → Text
unfolding decimal
suffix_of index = b' ' ∷ b'(' ∷ (decimal index ++ (b')' ∷ []))

unfoldable pub candidate_of : Text → ℕ → Text
unfolding truncate_node_name_for_suffix suffix_of
candidate_of name index = truncate_node_name_for_suffix name (suffix_of index) ++ suffix_of index

unfoldable pub existing_names : List Sibling → List Text
existing_names siblings = map (λ s. node_visible_name s.name s.ext s.type) siblings

-- The loop over `index`, with the number of attempts that are left.
unfoldable pub rename_loop : ℕ → ℕ → Text → Text → NodeType → List Text → Result Text
rename_loop zero index name ext type existing = err conflict
rename_loop (suc left) index name ext type existing =
    let rest = rename_loop left (index + 1) name ext type existing in
    if contains existing (node_visible_name (candidate_of name index) ext type)
    then rest
    else ok (candidate_of name index)

unfoldable pub resolve_auto_renamed_node_name : Text → Text → NodeType → List Sibling → Result Text
unfolding existing_names
resolve_auto_renamed_node_name name ext type siblings =
    if contains (existing_names siblings) (node_visible_name name ext type)
    then rename_loop max_auto_rename_candidate_attempt 1 name ext type (existing_names siblings)
    else ok name

-- normalizeNodeNameConflictPolicy, with unicode.ToLower as a parameter.
unfoldable pub normalize_node_name_conflict_policy : (ℕ → ℕ) → Text → Result ConflictPolicy
unfolding trim_space eqb
normalize_node_name_conflict_policy to_lower input =
    let policy = map to_lower (trim_space input) in
    if is_empty policy || eqb policy (codes "error")
    then ok error
    else if eqb policy (codes "auto_rename")
        || eqb policy (codes "auto-rename")
        || eqb policy (codes "autorename")
    then ok auto_rename
    else if eqb policy (codes "replace")
    then ok replace
    else err invalid_argument
