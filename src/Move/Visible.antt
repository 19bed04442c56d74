-- ===== src/Move/Visible.antt =====
-- The visible name that is sought for duplicates (buildVisibleName of
-- internal/repository/postgres/impl/node/node_write.go) and the one that a row shows.
use omniflow_go.Prelude.{ℕ, ◌≡◌, refl, inl, inr, ◌==◌, Bool-cases}
use omniflow_go.Text.{Text, trim_space, trim_dot}
use omniflow_go.Names.{node_type_code, domain_type_code, build_visible_name}
use omniflow_go.Store.{Row}
use omniflow_go.Move.{deref_string, sql_visible_name}

pub is_file_code : (n : ℕ) → (n == 1) ≡ (node_type_code (domain_type_code n) == 1)
unfolding node_type_code domain_type_code
is_file_code n = elim (Bool-cases (n == 1)) [
  | inl b ↦ rw (b, domain_type_code) refl
  | inr b ↦ rw (b, domain_type_code) refl
]

-- They are one where the name and the extension have nothing around them that is cut off.
pub visible_trimmed :
    (r : Row) (name ext : Text) (type : ℕ)
    → r.name ≡ name
    → deref_string r.ext ≡ ext
    → (r.node_type == 1) ≡ (type == 1)
    → trim_space name ≡ name
    → trim_dot (trim_space ext) ≡ ext
    → sql_visible_name r ≡ build_visible_name name ext type
unfolding sql_visible_name build_visible_name
visible_trimmed r name ext type n e t h k =
    rw (sql_visible_name, build_visible_name, n, e, t, h, k) refl
