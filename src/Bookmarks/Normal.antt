-- ===== src/Bookmarks/Normal.antt =====
-- The normalisation of kinds, titles, URLs and imported items: internal/usecase/browser_bookmark.go and
-- browser_bookmark_import.go.
use omniflow_go.Prelude.{
  ℕ, ◌+◌, Bool, true, false, ◌&&◌, ◌||◌, not, Option, none, some, [], ◌∷◌, map, ◌==◌, ltb, leb,
  if◌then◌else◌, length,
}
use omniflow_go.Text.{Text, eqb, is_empty, trim_space, codes}
use omniflow_go.Result.{Result, ok, err, guard, ◌>>=◌, ◌>>◌, invalid_argument}
use omniflow_go.Bookmarks.{kind_url, kind_folder}

-- `len` of a string: the bytes of its runes.
unfoldable pub byte_length : Text → ℕ
byte_length [] = 0
byte_length (x ∷ xs) =
    (if ltb x 0x80 then 1 else if ltb x 0x800 then 2 else if ltb x 0x10000 then 3 else 4)
    + byte_length xs

-- unicode.ToLower, and what the package net/url does: a parsed URL has a scheme and a host, which can
-- be set, a query and a fragment, which can be dropped, and a text.
pub record Urls : Type 1 where
  pub Url : Type 0
  pub to_lower : ℕ → ℕ
  pub parse : Text → Option Url
  pub scheme : Url → Text
  pub host : Url → Text
  pub set_origin : Text → Text → Url → Url
  pub drop_query : Url → Url
  pub drop_fragment : Url → Url
  pub text : Url → Text

-- strings.TrimRight(t, "/")
unfoldable pub trim_slashes : Text → Text
trim_slashes [] = []
trim_slashes (x ∷ xs) =
    let rest = trim_slashes xs in if x == b'/' && is_empty rest then [] else x ∷ rest

unfoldable pub or_raw : {A : Type 0} → Option A → Result A
or_raw none = err invalid_argument
or_raw (some a) = ok a

-- The list of imported items, each with the list of its children.
pub record ImportFields : Type 0 where
  pub kind : Text
  pub title : Text
  pub url : Text
  pub url_match_key : Text
  pub icon_url : Text

pub data ImportItems : Type 0 where
  no_items : ImportItems
  item : ImportFields → (children rest : ImportItems) → ImportItems

abbrev pub is_no_items : ImportItems → Bool
is_no_items no_items = true
is_no_items (item f children rest) = false

abbrev pub or_empty : Option Text → Text
or_empty none = []
or_empty (some t) = t

module _ (u : Urls) where
  open u use {Url, to_lower, parse, scheme, host, set_origin, drop_query, drop_fragment, text}

  unfoldable pub default_kind : Text → Text
  default_kind raw =
      let kind = map to_lower (trim_space raw) in if is_empty kind then kind_url else kind

  unfoldable pub normalize_bookmark_kind : Text → Result Text
  unfolding default_kind
  normalize_bookmark_kind raw =
      if eqb (default_kind raw) kind_url || eqb (default_kind raw) kind_folder
      then ok (default_kind raw)
      else err invalid_argument

  unfoldable pub normalize_bookmark_title : Text → Result Text
  normalize_bookmark_title raw = do
    guard (not (is_empty (trim_space raw))) invalid_argument
    guard (leb (length (trim_space raw)) 255) invalid_argument
    ok (trim_space raw)

  abbrev pub lower_origin : Url → Url
  lower_origin parsed =
      set_origin (map to_lower (trim_space (scheme parsed)))
        (map to_lower (trim_space (host parsed))) parsed

  -- The tests on a parsed URL.
  unfoldable pub check_origin : Url → Result (Unit {0})
  check_origin parsed = do
    guard (eqb (scheme parsed) (codes "http") || eqb (scheme parsed) (codes "https"))
        invalid_argument
    guard (not (is_empty (host parsed))) invalid_argument

  abbrev pub match_key_of : Text → Text
  match_key_of normalized =
      let key = trim_slashes normalized in
      if eqb key (codes "http:") || eqb key (codes "https:") then normalized else key

  unfoldable pub normalize_bookmark_url : Text → Result (Text × Text)
  unfolding byte_length check_origin
  normalize_bookmark_url raw = do
    guard (not (is_empty (trim_space raw))) invalid_argument
    guard (leb (byte_length (trim_space raw)) 2048) invalid_argument
    first ← or_raw (parse (trim_space raw))
    let parsed = drop_fragment (drop_query (lower_origin first))
    check_origin parsed
    ok (text parsed, match_key_of (text parsed))

  unfoldable pub normalize_icon : Text → Result (Option Text)
  unfolding byte_length check_origin
  normalize_icon icon = do
    guard (leb (byte_length icon) 2048) invalid_argument
    first ← or_raw (parse icon)
    let parsed = drop_fragment (lower_origin first)
    check_origin parsed
    ok (some (text parsed))

  unfoldable pub normalize_optional_bookmark_icon_url : Text → Result (Option Text)
  unfolding normalize_icon
  normalize_optional_bookmark_icon_url raw =
      if is_empty (trim_space raw) then ok none else normalize_icon (trim_space raw)

  -- The URL of an item with its match key: a folder must have none.
  unfoldable pub normalize_item_url : Text → Text → Result (Text × Text)
  normalize_item_url kind url =
      if eqb kind kind_url
      then normalize_bookmark_url url
      else if is_empty (trim_space url)
      then ok ([], [])
      else err invalid_argument

  -- normalizeImportBrowserBookmarkItem, but for the children.
  unfoldable pub normalize_fields : ImportFields → Result ImportFields
  unfolding normalize_item_url
  normalize_fields f = do
    kind ← normalize_bookmark_kind f.kind
    title ← normalize_bookmark_title f.title
    (url, key) ← normalize_item_url kind f.url
    icon ← normalize_optional_bookmark_icon_url f.icon_url
    ok (record {
      kind = kind;
      title = title;
      url = url;
      url_match_key = key;
      icon_url = or_empty icon;
    })

  unfoldable pub normalize_import_browser_bookmark_items : ImportItems → Result ImportItems
  normalize_import_browser_bookmark_items no_items = ok no_items
  normalize_import_browser_bookmark_items (item f children rest) = do
    fields ← normalize_fields f
    guard (is_no_items children || eqb fields.kind kind_folder) invalid_argument
    below ← normalize_import_browser_bookmark_items children
    more ← normalize_import_browser_bookmark_items rest
    ok (item fields below more)
