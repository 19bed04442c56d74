-- ===== src/Tests/Renaming.antt =====
-- Renaming a file beside another one.
use omniflow_go.Prelude.{◌≡◌, refl, Option, some, none, List, [], ◌∷◌}
use omniflow_go.Text.{Text, codes, trim_space, trim_dot, eqb}
use omniflow_go.Result.{ok}
use omniflow_go.Names.{
  is_file, build_visible_name, node_type_code, domain_type_code, normalize_node_ext,
}
use omniflow_go.Store.{Row, first, has_parent, find_node_model, parent_id_value}
use omniflow_go.Store.Memory.{memory, count_list}
use omniflow_go.Store.Memory.Select.{select_list, update_list}
use omniflow_go.Move.{deref_string, has_duplicate_visible_name, is_sibling}
use omniflow_go.Rename.{
  ext_updates, rename_row, wanted_ext, update_node_fields, rename_node, rename,
}
use omniflow_go.Rename.Renamed.{IsRenamed, rename-IsRenamed}
use omniflow_go.Tests.Moves.{row}

abbrev notes : Row
notes = record (row 3 (some 1) 1 (codes "notes") 30) { ext = some (codes "txt") }

abbrev rows : List Row
rows = row 1 none 0 (codes "root") 0 ∷ row 2 (some 1) 0 (codes "notes") 15 ∷ notes ∷ []

-- The file gets another name and extension.
abbrev renamed_rows : List Row
renamed_rows =
    row 1 none 0 (codes "root") 0
    ∷ row 2 (some 1) 0 (codes "notes") 15
    ∷ record notes { name = codes "Notes 2"; ext = some (codes "md"); updated_at = 9 }
    ∷ []

renames :
    rename memory (λ library. ok tt) notes (codes "Notes 2") (some (codes " .md")) 9 rows
    ≡ ok renamed_rows
unfolding rename rename_node update_node_fields wanted_ext ext_updates rename_row find_node_model
    select_list update_list count_list first has_parent parent_id_value is_sibling deref_string
    has_duplicate_visible_name build_visible_name node_type_code domain_type_code normalize_node_ext
    trim_space trim_dot eqb
renames = refl

rename-IsRenamed_example :
    (wanted : Option Text) × (wanted_ext (is_file (domain_type_code 1)) (some (codes " .md"))
      ≡ ok wanted)
    × IsRenamed 1 3 (codes "Notes 2") wanted 9 rows renamed_rows
rename-IsRenamed_example =
    rename-IsRenamed memory (λ library. ok tt) notes (codes "Notes 2") (some (codes " .md")) 9 rows
      renamed_rows renames
