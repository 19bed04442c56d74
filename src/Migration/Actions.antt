-- ===== src/Migration/Actions.antt =====
-- Calls that may fail: of the database, whose failures the world chooses, and of the object stores
-- (internal/storage/storage.go); and WithinTx of internal/repository/postgres/impl/txctx.
use omniflow_go.Prelude.{ℕ, ◌≡◌, ◌≢◌, Option, none, some, List, take, length}
use omniflow_go.Text.{Text}
use omniflow_go.Result.{Error, Result, ok, err}
use omniflow_go.Migration.{Db}

-- storage.ObjectInfo
pub record ObjectInfo : Type 0 where
  pub size : ℕ
  pub content_type : Text
  pub etag : Text

-- How a COMMIT ends: without an error, or with one, and then it was applied, its answer being lost,
-- or not.
pub data CommitEnd : Type 0 where
  applied : CommitEnd
  refused : Error → CommitEnd
  applied_unanswered : Error → CommitEnd

-- What is outside: whether the next statement or BEGIN fails; how the next COMMIT ends; and the
-- object stores, with a handle for each. A reader is the bytes that it would give.
pub record Outside (S X : Type 0) : Type 0 where
  pub fails : X → Option Error × X
  pub commits : X → CommitEnd × X
  pub get_object : S → Text → X → Result (List ℕ × ObjectInfo) × X
  pub upload : S → Text → List ℕ → ℕ → Text → X → Result (Unit {0}) × X
  pub stat_object : S → Text → X → Result ObjectInfo × X
  pub remove : S → Text → X → Result (Unit {0}) × X
  pub bucket : S → Text

-- What the stores promise, `content` being what they hold: a call changes nothing but the key
-- that it writes or removes; a reader gives the bytes of the object; an upload without an error
-- has stored what it read, which may be cut short; a stat tells the size.
pub record IsLawful {S X : Type 0} (o : Outside S X) (content : S → Text → X → Option (List ℕ))
    : Type 0 where
  pub fails_same : (x : X) (s : S) (k : Text) → content s k (o.fails x).1 ≡ content s k x
  pub commits_same : (x : X) (s : S) (k : Text) → content s k (o.commits x).1 ≡ content s k x
  pub get_same :
      (x : X) (t : S) (l : Text) (s : S) (k : Text)
      → content s k (o.get_object t l x).1 ≡ content s k x
  pub get_content :
      (x : X) (t : S) (l : Text) (bytes : List ℕ) (info : ObjectInfo)
      → (o.get_object t l x).0 ≡ ok (bytes, info)
      → content t l x ≡ some bytes
  pub upload_same :
      (x : X) (t : S) (l : Text) (bytes : List ℕ) (n : ℕ) (type : Text) (s : S) (k : Text)
      → k ≢ l
      → content s k (o.upload t l bytes n type x).1 ≡ content s k x
  pub upload_content :
      (x : X) (t : S) (l : Text) (bytes : List ℕ) (n : ℕ) (type : Text)
      → (o.upload t l bytes n type x).0 ≡ ok tt
      → (m : ℕ) × (content t l (o.upload t l bytes n type x).1 ≡ some (take m bytes))
  pub stat_same :
      (x : X) (t : S) (l : Text) (s : S) (k : Text)
      → content s k (o.stat_object t l x).1 ≡ content s k x
  pub stat_content :
      (x : X) (t : S) (l : Text) (info : ObjectInfo)
      → (o.stat_object t l x).0 ≡ ok info
      → (bytes : List ℕ) × (content t l x ≡ some bytes) × (info.size ≡ length bytes)
  pub remove_same :
      (x : X) (t : S) (l : Text) (s : S) (k : Text)
      → k ≢ l
      → content s k (o.remove t l x).1 ≡ content s k x

-- A COMMIT that reports an error was not applied.
abbrev pub IsAnswered : {S X : Type 0} → Outside S X → Type 0
IsAnswered {X = X} o = (x : X) (e : Error) → (o.commits x).0 ≢ applied_unanswered e

pub record World (X : Type 0) : Type 0 where
  pub db : Db
  pub outside : X

abbrev pub Action : Type 0 → Type 0 → Type 0
Action X A = World X → Result A × World X

module _ {X : Type 0} where
  abbrev pub done : {A : Type 0} → A → Action X A
  done a w = (ok a, w)

  abbrev pub fail : {A : Type 0} → Error → Action X A
  fail e w = (err e, w)

  abbrev pub continue :
      {A B : Type 0}
      → (A → Action X B)
      → (Error → Action X B)
      → Result A × World X
      → Result B × World X
  continue f g (ok a, w) = f a w
  continue f g (err e, w) = g e w

  -- `a, err := call; if err != nil { ... }` and what follows.
  abbrev pub handle :
      {A B : Type 0} → Action X A → (A → Action X B) → (Error → Action X B) → Action X B
  handle m f g w = continue f g (m w)

  infixl 5 ◌>>=◌
  -- The same where the error is returned.
  abbrev pub ◌>>=◌ : {A B : Type 0} → Action X A → (A → Action X B) → Action X B
  m >>= f = handle m f fail

  infixl 5 ◌>>◌
  abbrev pub ◌>>◌ : {A B : Type 0} → Action X A → Action X B → Action X B
  m >> n = handle m (λ a. n) fail

  -- `_ = call`, or one whose error is logged only.
  abbrev pub attempt : {A : Type 0} → Action X A → Action X (Unit {0})
  attempt m = handle m (λ a. done tt) (λ e. done tt)

  -- A value that was computed without the world.
  abbrev pub lift : {A : Type 0} → Result A → Action X A
  lift r w = (r, w)

  -- A call of a store.
  abbrev pub call_result : {A : Type 0} → Db → Result A × X → Result A × World X
  call_result db (r, x) = (r, record { db = db; outside = x })

  abbrev pub call : {A : Type 0} → (X → Result A × X) → Action X A
  call f w = call_result w.db (f w.outside)

module _ {S X : Type 0} (o : Outside S X) where
  abbrev pub statement_result :
      {A : Type 0} → (Db → Result A × Db) → Db → Option Error × X → Result A × World X
  statement_result f db (some e, x) = (err e, record { db = db; outside = x })
  statement_result f db (none, x) = ((f db).0, record { db = (f db).1; outside = x })

  -- A statement of the database, which changes nothing where it fails.
  abbrev pub statement : {A : Type 0} → (Db → Result A × Db) → Action X A
  statement f w = statement_result f w.db (o.fails w.outside)

  abbrev pub update : (Db → Db) → Action X (Unit {0})
  update f = statement (λ db. (ok tt, f db))

  abbrev pub commit_result : {A : Type 0} → Db → A → Db → CommitEnd × X → Result A × World X
  commit_result before a db (applied, x) = (ok a, record { db = db; outside = x })
  commit_result before a db (refused e, x) = (err e, record { db = before; outside = x })
  commit_result before a db (applied_unanswered e, x) = (err e, record { db = db; outside = x })

  abbrev pub committed : {A : Type 0} → Db → Result A × World X → Result A × World X
  committed before (err e, w) = (err e, record { db = before; outside = w.outside })
  committed before (ok a, w) = commit_result before a w.db (o.commits w.outside)

  -- The body's changes are kept where it returns no error and COMMIT is applied.
  abbrev pub within_tx : {A : Type 0} → Action X A → Action X A
  within_tx m = update (λ db. db) >> (λ w. committed w.db (m w))
