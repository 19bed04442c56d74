-- ===== src/Result.antt =====
-- The sentinel errors of the use cases (internal/usecase/persistence.go, mutation_mode.go), of the
-- repositories (internal/repository/repoerr/errors.go), of internal/storage, internal/config and
-- internal/authz, and results that may carry one. An error
-- that wraps a sentinel, which errors.Is tells, is that sentinel here.
use omniflow_go.Prelude.{ℕ, ◌≡◌, ◌⊎◌, inl, inr, refl, Bool, true, false, if◌then◌else◌}

pub data Error : Type 0 where
  invalid_argument not_found conflict expired unauthorized forbidden : Error
  invalid_credentials unsupported_storage dry_run_rollback : Error
  provider_unknown storage_config_invalid permission_denied : Error
  repository_not_found repository_conflict repository_invalid_state : Error
  -- An error of a driver, a network or a decoder.
  other : ℕ → Error

-- What a Go function returns as `(value, err)`.
pub data Result {ℓ} (V : Type ℓ) : Type ℓ where
  err : Error → Result V
  ok : V → Result V

-- `if !test { return e }`
abbrev pub guard : Bool → Error → Result (Unit {0})
guard test failure = if test then ok tt else err failure

infixl 5 ◌>>=◌
-- `if err != nil { return err }` behind a call.
abbrev pub ◌>>=◌ {ι κ} : {V : Type ι} {W : Type κ} → Result V → (V → Result W) → Result W
err failure >>= rest = err failure
ok value >>= rest = rest value

infixl 5 ◌>>◌
-- The same behind a call with nothing but an error.
abbrev pub ◌>>◌ {κ} : {W : Type κ} → Result (Unit {0}) → Result W → Result W
call >> rest = call >>= λ done. rest

-- A test that was passed.
pub guard-eq-ok {κ} :
    {W : Type κ} (test : Bool) (failure : Error) (rest : Result W) {w : W}
    → (guard test failure >> rest) ≡ ok w
    → (test ≡ true) × (rest ≡ ok w)
guard-eq-ok false failure rest h = cc
guard-eq-ok true failure rest h = (refl, h)

-- A call that was passed.
pub >>=-eq-ok {ι κ} :
    {V : Type ι} {W : Type κ} (call : Result V) (rest : V → Result W) {w : W}
    → (call >>= rest) ≡ ok w
    → (v : V) × (call ≡ ok v) × (rest v ≡ ok w)
>>=-eq-ok (err failure) rest h = cc
>>=-eq-ok (ok v) rest h = (v, refl, h)

-- To split on the result of a call.
pub Result-cases {ι} :
    {V : Type ι} (call : Result V) → ((v : V) × (call ≡ ok v)) ⊎ ((e : Error) × (call ≡ err e))
Result-cases (ok v) = inl (v, refl)
Result-cases (err e) = inr (e, refl)

pub ok_injective {ι} : {V : Type ι} {v w : V} → ok v ≡ ok w → v ≡ w
ok_injective e = cc
