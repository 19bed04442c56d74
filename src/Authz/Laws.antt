-- ===== src/Authz/Laws.antt =====
-- Whom Authorize lets through.
use omniflow_go.Prelude.{
  ℕ, ◌<◌, ◌≡◌, refl, sym, ap, ◌∙◌, ◌⊎◌, inl, inr, ◌↔◌, true, ◌||◌, Option, none, some, List, [],
  ◌∷◌, ◌++◌, Elem, arith, Bool-cases, else_branch,
}
use omniflow_go.Text.{Text, eqb, codes, trim_space}
use omniflow_go.Result.{Result, ok, err, >>=-eq-ok, guard-eq-ok}
use omniflow_go.Authz.{
  Actor, Resource, kind_user, kind_agent, parse_uint, has_scope, has_library_scope, positive_key,
  parse_key, check_owner, authorize_user, authorize,
}

has_scope_iff :
    (wanted : Text) (scopes : List Text)
    → (has_scope wanted scopes ≡ true) ↔ (
        (s : Text) × Elem s scopes
        × (eqb (trim_space s) (codes "library:*") || eqb (trim_space s) wanted ≡ true))
unfolding has_scope
has_scope_iff wanted [] = (λ h. absurd (ground arith), λ (s, m, h). absurd m)
has_scope_iff wanted (x ∷ xs) =
    let (to, from) = has_scope_iff wanted xs in
    (
      λ h. elim (Bool-cases (eqb (trim_space x) (codes "library:*") || eqb (trim_space x) wanted)) [
        | inl b ↦ (x, inl refl, b)
        | inr b ↦ let (s, m, k) = to (ground arith) in (s, inr m, k)
      ],
      λ (s, m, k). elim m [
        | inl e ↦
            let k' : eqb (trim_space x) (codes "library:*") || eqb (trim_space x) wanted ≡ true =
              ap (λ t. eqb (trim_space t) (codes "library:*") || eqb (trim_space t) wanted) (sym e)
              ∙ k in
            ground arith
        | inr n ↦ ground (arith, from (s, n, k))
      ],
    )

positive_key-eq-ok : (o : Option ℕ) (n : ℕ) → (positive_key o ≡ ok n) ↔ ((o ≡ some n) × (0 < n))
unfolding positive_key
positive_key-eq-ok none n = (λ h. absurd (ground arith), λ (h, k). absurd (ground arith))
positive_key-eq-ok (some m) n = (λ h. ground arith, λ (h, k). ground arith)

parse_key-eq-ok :
    (t : Text) (n : ℕ) → (parse_key t ≡ ok n) ↔ ((parse_uint (trim_space t) ≡ some n) × (0 < n))
unfolding parse_key
parse_key-eq-ok t n = positive_key-eq-ok (parse_uint (trim_space t)) n

-- What lets an actor in, stated on its own.
abbrev pub IsAllowed : (ℕ → Result ℕ) → Actor → Resource → Text → Type 0
IsAllowed owner_of principal resource action =
    (eqb resource.kind (codes "library") ≡ true)
    × ((library : ℕ) × (parse_uint (trim_space resource.id) ≡ some library)
        × (0 < library)
        × (((s : Text) × Elem s principal.scopes
              × (eqb (trim_space s) (codes "library:*")
                    || eqb (trim_space s) (codes "library:" ++ action)
                  ≡ true))
            ⊎ ((eqb principal.kind kind_user || eqb principal.kind kind_agent ≡ true)
                × ((user : ℕ) × (parse_uint (trim_space principal.id) ≡ some user)
                    × (0 < user)
                    × (owner_of library ≡ ok user)))))

module _ (owner_of : ℕ → Result ℕ) where
  check_owner-eq-ok :
      (user : ℕ) (call : Result ℕ) → (check_owner user call ≡ ok tt) ↔ (call ≡ ok user)
  unfolding check_owner
  check_owner-eq-ok user (err e) = (λ h. absurd (ground arith), λ h. absurd (ground arith))
  check_owner-eq-ok user (ok owner) = (λ h. ground arith, λ h. ground arith)

  authorize-IsAllowed :
      (principal : Actor) (resource : Resource) (action : Text)
      → authorize owner_of principal resource action ≡ ok tt
      → IsAllowed owner_of principal resource action
  unfolding authorize authorize_user has_library_scope
  authorize-IsAllowed principal resource action h =
      let (kind, h₁) = guard-eq-ok (eqb resource.kind (codes "library")) _ _ h in
      let (library, a, h₂) = >>=-eq-ok (parse_key resource.id) _ h₁ in
      let (parsed, pos) = (parse_key-eq-ok resource.id library).0 a in
      (
        kind,
        (
          library,
          parsed,
          pos,
          elim (Bool-cases (has_scope (codes "library:" ++ action) principal.scopes)) [
            | inl b ↦ inl ((has_scope_iff _ principal.scopes).0 b)
            | inr b ↦
                let (person, h₃) =
                  guard-eq-ok (eqb principal.kind kind_user || eqb principal.kind kind_agent) _ _
                    (else_branch _ _ _ b ∙ h₂) in
                let (user, c, h₄) = >>=-eq-ok (parse_key principal.id) _ h₃ in
                let (parsed', pos') = (parse_key-eq-ok principal.id user).0 c in
                inr
                  (person, (user, parsed', pos', (check_owner-eq-ok user (owner_of library)).0 h₄))
          ],
        ),
      )

  let_in :
      (principal : Actor) (resource : Resource) (action : Text)
      → IsAllowed owner_of principal resource action
      → authorize owner_of principal resource action ≡ ok tt
  unfolding authorize authorize_user has_library_scope
  let_in principal resource action (kind, (library, parsed, pos, reason)) =
      let a = (parse_key-eq-ok resource.id library).1 (parsed, pos) in
      elim reason [
        | inl scope ↦
            let b = (has_scope_iff (codes "library:" ++ action) principal.scopes).1 scope in
            rw (kind, a, b) refl
        | inr (person, (user, parsed', pos', mine)) ↦
            let c = (parse_key-eq-ok principal.id user).1 (parsed', pos') in
            let o = (check_owner-eq-ok user (owner_of library)).1 mine in
            elim (Bool-cases (has_scope (codes "library:" ++ action) principal.scopes)) [
              | inl b ↦ rw (kind, a, b) refl
              | inr b ↦ rw (kind, a, b, person, c) o
            ]
      ]

  -- Authorize lets in exactly the actors with a scope for the action or for all actions on libraries,
  -- and the users and agents whose key is that of the owner of the library, on a resource of the kind
  -- "library" with a key that is a positive uint64.
  pub authorize_iff :
      (principal : Actor) (resource : Resource) (action : Text)
      → (authorize owner_of principal resource action ≡ ok tt)
        ↔ IsAllowed owner_of principal resource action
  authorize_iff principal resource action =
      (authorize-IsAllowed principal resource action, let_in principal resource action)
