-- ===== src/Authz.antt =====
-- Who may do what with a library: internal/authz/library_authorizer.go, internal/actor.
pub mod Laws
use omniflow_go.Prelude.{
  ℕ, zero, suc, ◌+◌, ◌*◌, ◌-◌, Bool, true, false, ◌&&◌, ◌||◌, not, Option, none, some, List, [],
  ◌∷◌, ◌++◌, ◌==◌, ltb, leb, if◌then◌else◌,
}
use omniflow_go.Text.{Text, eqb, codes, is_empty, trim_space}
use omniflow_go.Result.{Error, Result, ok, err, guard, ◌>>=◌, ◌>>◌, permission_denied}

pub record Actor : Type 0 where
  pub id : Text
  pub kind : Text
  pub scopes : List Text

pub record Resource : Type 0 where
  pub kind : Text
  pub id : Text

abbrev pub kind_user : Text
kind_user = codes "user"

abbrev pub kind_agent : Text
kind_agent = codes "agent"

-- strconv.ParseUint with base 10 and 64 bits, the digits so far being `value`.
unfoldable pub parse_digits : ℕ → Text → Option ℕ
parse_digits value [] = some value
parse_digits value (c ∷ cs) =
    if leb 48 c && leb c 57 && ltb (value * 10 + (c - 48)) 18446744073709551616
    then parse_digits (value * 10 + (c - 48)) cs
    else none

unfoldable pub parse_uint : Text → Option ℕ
unfolding parse_digits
parse_uint [] = none
parse_uint (c ∷ cs) = parse_digits 0 (c ∷ cs)

unfoldable pub has_scope : Text → List Text → Bool
has_scope wanted [] = false
has_scope wanted (s ∷ ss) =
    eqb (trim_space s) (codes "library:*") || eqb (trim_space s) wanted || has_scope wanted ss

unfoldable pub has_library_scope : Actor → Text → Bool
unfolding has_scope
has_library_scope principal action = has_scope (codes "library:" ++ action) principal.scopes

-- `err != nil || id == 0`
unfoldable pub positive_key : Option ℕ → Result ℕ
positive_key none = err permission_denied
positive_key (some n) = if n == 0 then err permission_denied else ok n

unfoldable pub parse_key : Text → Result ℕ
unfolding parse_uint positive_key
parse_key t = positive_key (parse_uint (trim_space t))

-- The answer of the lookup of the owner, compared with the user.
unfoldable pub check_owner : ℕ → Result ℕ → Result (Unit {0})
check_owner user (err e) = err permission_denied
check_owner user (ok owner) = if owner == user then ok tt else err permission_denied

module _ (library_owner_id : ℕ → Result ℕ) where
  unfoldable pub authorize_user : Actor → ℕ → Result (Unit {0})
  unfolding check_owner parse_key
  authorize_user principal library = do
    guard (eqb principal.kind kind_user || eqb principal.kind kind_agent) permission_denied
    user ← parse_key principal.id
    check_owner user (library_owner_id library)

  -- Authorize, the authorizer and its lookup being there.
  unfoldable pub authorize : Actor → Resource → Text → Result (Unit {0})
  unfolding authorize_user has_library_scope
  authorize principal resource action = do
    guard (eqb resource.kind (codes "library")) permission_denied
    library ← parse_key resource.id
    if has_library_scope principal action then ok tt else authorize_user principal library
