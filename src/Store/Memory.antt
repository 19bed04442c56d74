-- ===== src/Store/Memory.antt =====
-- A database that keeps its rows in a list and sorts what it selects: the laws can be met.
pub mod Select
pub mod Recursive
pub mod Writes
use omniflow_go.Prelude.{
  ℕ, zero, suc, ◌+◌, ◌≡◌, refl, sym, ◌↔◌, Bool, true, false, ◌&&◌, not, Option, none, some, List,
  [], ◌∷◌, map, arith, ap, Bool-cases, ◌⊎◌, inl, inr, if◌then◌else◌, All, Elem, length, ◌==◌, ◌||◌,
}
use omniflow_go.Text.{Text}
use omniflow_go.Result.{Error, Result, ok, err, other}
use omniflow_go.Store.{Row, Key, before, count, IsOrdered, Sub, Database, HasKeys}
use omniflow_go.Store.Memory.Select.{
  select_list, select_list_rows, select_list-IsOrdered, update_list, update_list_rows,
}
use omniflow_go.Store.Memory.Writes.{insert_list, insert_list_rows, delete_list, delete_list_rows}
use omniflow_go.Store.Memory.Recursive.{sub_list, sub_list_rows}

unfoldable pub count_list : (Row → Bool) → List Row → Result ℕ
count_list p rows = ok (count p rows)

pub count_list_rows :
    (p : Row → Bool) (s : List Row) (n : ℕ) → count_list p s ≡ ok n → n ≡ count p s
unfolding count_list
count_list_rows p s n h = ground arith

unfoldable pub lock_list : Text → List Row → Result (List Row)
lock_list t rows = ok rows

pub lock_list_keys : (t : Text) (s s' : List Row) → lock_list t s ≡ ok s' → HasKeys s → HasKeys s'
unfolding lock_list
lock_list_keys t s s' h k = let e : s ≡ s' = ground arith in rw (← e) k

abbrev pub memory : Database
memory = record {
  Session = List Row;
  nodes = λ rows. rows;
  select = select_list;
  update = update_list;
  insert = insert_list;
  delete = delete_list;
  select_sub = sub_list;
  select_count = count_list;
  lock = lock_list;
  select_rows = select_list_rows;
  select_ordered = select_list-IsOrdered;
  update_rows = update_list_rows;
  insert_rows = insert_list_rows;
  delete_rows = delete_list_rows;
  select_sub_rows = sub_list_rows;
  select_count_rows = count_list_rows;
  lock_keys = lock_list_keys;
}
