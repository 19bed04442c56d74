-- ===== src/Tests/Importing.antt =====
-- A folder with an entry is imported next to the bookmarks of the owner 1.
use omniflow_go.Prelude.{◌≡◌, refl, none, some, List, [], ◌∷◌}
use omniflow_go.Text.{Text, codes, eqb, trim_space}
use omniflow_go.Result.{ok}
use omniflow_go.Bookmarks.{Bookmark, kind_url, kind_folder, to_pg_int64_ptr}
use omniflow_go.Bookmarks.Memory.{bookmark_memory, select_max_list, insert_bookmarks}
use omniflow_go.Bookmarks.Move.{after_max, next_sort_order}
use omniflow_go.Bookmarks.Normal.{
  Urls, ImportItems, no_items, item, byte_length, trim_slashes, or_raw, default_kind,
  normalize_bookmark_kind, normalize_bookmark_title, check_origin, normalize_bookmark_url,
  normalize_optional_bookmark_icon_url, normalize_item_url, normalize_fields,
  normalize_import_browser_bookmark_items,
}
use omniflow_go.Bookmarks.Import.{bookmark_string_ptr, create_item, import_loop, import_bookmarks}
use omniflow_go.Bookmarks.Import.Grown.{Grows, count_items, import_bookmarks-Grows}
use omniflow_go.Tests.Bookmarking.{mark, marks, tree}

-- URLs that are texts, all with the scheme https and the host h.
abbrev plain_urls : Urls
plain_urls = record {
  Url = Text;
  to_lower = λ c. c;
  parse = λ t. some t;
  scheme = λ t. codes "https";
  host = λ t. codes "h";
  set_origin = λ s h t. t;
  drop_query = λ t. t;
  drop_fragment = λ t. t;
  text = λ t. t;
}

abbrev items : ImportItems
items =
    item
      (record {
        kind = codes "folder";
        title = codes " f ";
        url = [];
        url_match_key = [];
        icon_url = [];
      })
      (item
        (record {
          kind = [];
          title = codes "e";
          url = codes "https://h/";
          url_match_key = [];
          icon_url = [];
        })
        no_items no_items)
      no_items

abbrev imported : List Bookmark
imported =
    mark 1 none kind_folder 2147484648 0
    ∷ mark 2 (some 1) kind_url 2147484648 0
    ∷ mark 3 (some 1) kind_url 2147485648 0
    ∷ mark 4 none kind_folder 2147485648 0
    ∷ mark 5 none kind_url 2147486648 0
    ∷ record (mark 16 none kind_folder 2147487648 9) { title = codes "f" }
    ∷ record (mark 32 (some 16) kind_url 2147484648 9) {
      title = codes "e";
      url = some (codes "https://h/");
      url_match_key = some (codes "https://h");
    }
    ∷ []

imports : import_bookmarks bookmark_memory plain_urls 9 1 items marks ≡ ok (2, imported)
unfolding import_bookmarks import_loop create_item bookmark_string_ptr next_sort_order after_max
    select_max_list insert_bookmarks to_pg_int64_ptr byte_length trim_slashes or_raw default_kind
    normalize_bookmark_kind normalize_bookmark_title check_origin normalize_bookmark_url
    normalize_optional_bookmark_icon_url normalize_item_url normalize_fields
    normalize_import_browser_bookmark_items eqb trim_space
imports = refl

import_bookmarks-Grows_example : Grows bookmark_memory 1 2 marks imported × (2 ≡ count_items items)
import_bookmarks-Grows_example =
    import_bookmarks-Grows bookmark_memory plain_urls 9 1 2 items marks imported tree imports
