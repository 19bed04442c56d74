-- ===== src/Tests/Permissions.antt =====
-- The user 7, who owns the library 3, writes to it.
use omniflow_go.Prelude.{ℕ, ◌≡◌, refl, ◌↔◌, ◌==◌, [], ◌∷◌, if◌then◌else◌}
use omniflow_go.Text.{codes, eqb, trim_space}
use omniflow_go.Result.{Result, ok, err, not_found}
use omniflow_go.Authz.{
  Actor, Resource, parse_digits, parse_uint, has_scope, has_library_scope, positive_key, parse_key,
  check_owner, authorize_user, authorize,
}
use omniflow_go.Authz.Laws.{IsAllowed, authorize_iff}

abbrev owner_of : ℕ → Result ℕ
owner_of library = if library == 3 then ok 7 else err not_found

abbrev someone : Actor
someone = record { id = codes "7"; kind = codes "user"; scopes = codes "library:read" ∷ [] }

abbrev library_3 : Resource
library_3 = record { kind = codes "library"; id = codes " 3" }

lets_in : authorize owner_of someone library_3 (codes "write") ≡ ok tt
unfolding authorize authorize_user check_owner parse_key positive_key parse_uint parse_digits
    has_library_scope has_scope eqb trim_space
lets_in = refl

authorize_iff_example :
    (authorize owner_of someone library_3 (codes "write") ≡ ok tt)
    ↔ IsAllowed owner_of someone library_3 (codes "write")
authorize_iff_example = authorize_iff owner_of someone library_3 (codes "write")
