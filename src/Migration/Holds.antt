-- ===== src/Migration/Holds.antt =====
-- What holds before and after a call: the rules for the actions of Actions.antt.
use omniflow_go.Prelude.{◌≡◌, ◌≢◌, refl, Bool, true, false, if◌then◌else◌, Option, none, some}
use omniflow_go.Result.{Error, Result, ok, err}
use omniflow_go.Migration.{Db}
use omniflow_go.Migration.Actions.{
  CommitEnd, applied, refused, applied_unanswered, Outside, World, Action, fail, continue, handle,
  ◌>>=◌, ◌>>◌, attempt, lift, call, call_result, statement, statement_result, update, committed,
  commit_result, within_tx,
}

module _ {X : Type 0} where
  -- Of a result: what it satisfies with a value, and what with an error.
  abbrev pub After :
      {A : Type 0}
      → (A → World X → Type 0)
      → (Error → World X → Type 0)
      → Result A × World X
      → Type 0
  After Q E (ok a, w) = Q a w
  After Q E (err e, w) = E e w

  -- From a world with `P`, the call ends with `Q` or, with an error, with `E`.
  abbrev pub Holds :
      {A : Type 0}
      → (World X → Type 0)
      → Action X A
      → (A → World X → Type 0)
      → (Error → World X → Type 0)
      → Type 0
  Holds P m Q E = (w : World X) → P w → After Q E (m w)

  -- The same with the same property at either end.
  abbrev pub Keeps : {A : Type 0} → (World X → Type 0) → Action X A → Type 0
  Keeps P m = Holds P m (λ a. P) (λ e. P)

  After-continue :
      {A B : Type 0} (Q : A → World X → Type 0) (E : Error → World X → Type 0)
      (R : B → World X → Type 0) (F : Error → World X → Type 0) (f : A → Action X B)
      (g : Error → Action X B) (r : Result A × World X)
      → After Q E r
      → ((a : A) → Holds (Q a) (f a) R F)
      → ((e : Error) → Holds (E e) (g e) R F)
      → After R F (continue f g r)
  After-continue Q E R F f g (ok a, w) h hf hg = hf a w h
  After-continue Q E R F f g (err e, w) h hf hg = hg e w h

  pub Holds-handle :
      {A B : Type 0} (P : World X → Type 0) (Q : A → World X → Type 0)
      (E : Error → World X → Type 0) (R : B → World X → Type 0) (F : Error → World X → Type 0)
      (m : Action X A) (f : A → Action X B) (g : Error → Action X B)
      → Holds P m Q E
      → ((a : A) → Holds (Q a) (f a) R F)
      → ((e : Error) → Holds (E e) (g e) R F)
      → Holds P (handle m f g) R F
  Holds-handle P Q E R F m f g hm hf hg w h = After-continue Q E R F f g (m w) (hm w h) hf hg

  pub Holds-bind :
      {A B : Type 0} (P : World X → Type 0) (Q : A → World X → Type 0) (R : B → World X → Type 0)
      (E : Error → World X → Type 0) (m : Action X A) (f : A → Action X B)
      → Holds P m Q E
      → ((a : A) → Holds (Q a) (f a) R E)
      → Holds P (m >>= f) R E
  Holds-bind P Q R E m f hm hf = Holds-handle P Q E R E m f fail hm hf (λ e w h. h)

  -- An action whose own end does not matter.
  pub Holds-attempt :
      {A B : Type 0} (P : World X → Type 0) (Q : World X → Type 0) (R : B → World X → Type 0)
      (F : Error → World X → Type 0) (m : Action X A) (n : Action X B)
      → Holds P m (λ a. Q) (λ e. Q)
      → Holds Q n R F
      → Holds P (attempt m >> n) R F
  Holds-attempt P Q R F m n hm hn =
      Holds-handle P (λ a. Q) (λ e w. ⊥) R F (attempt m) (λ a. n) fail
        (Holds-handle P (λ a. Q) (λ e. Q) (λ a. Q) (λ e w. ⊥) m (λ a w. (ok tt, w))
          (λ e w. (ok tt, w)) hm (λ a w h. h) (λ e w h. h))
        (λ a. hn) (λ e w b. elim b [ ])

  pub After-call_result :
      {A : Type 0} (Q : A → World X → Type 0) (E : Error → World X → Type 0) (db : Db)
      (r : Result A × X)
      → ((a : A) → r.0 ≡ ok a → Q a (record { db = db; outside = r.1 }))
      → ((e : Error) → E e (record { db = db; outside = r.1 }))
      → After Q E (call_result db r)
  After-call_result Q E db (ok a, x) hq he = hq a refl
  After-call_result Q E db (err e, x) hq he = he e

  pub After-cases :
      {A : Type 0} (Q : A → World X → Type 0) (E : Error → World X → Type 0) (r : Result A)
      (w : World X)
      → ((a : A) → r ≡ ok a → Q a w)
      → ((e : Error) → E e w)
      → After Q E (r, w)
  After-cases Q E (ok a) w hq he = hq a refl
  After-cases Q E (err e) w hq he = he e

  pub After-weaken :
      {A : Type 0} (Q : A → World X → Type 0) (E F : Error → World X → Type 0)
      (r : Result A × World X)
      → ((e : Error) (w : World X) → E e w → F e w)
      → After Q E r
      → After Q F r
  After-weaken Q E F (ok a, w) h p = p
  After-weaken Q E F (err e, w) h p = h e w p

  pub After-world :
      {A : Type 0} (P : World X → Type 0) (r : Result A × World X)
      → After (λ a. P) (λ e. P) r
      → P r.1
  After-world P (ok a, w) h = h
  After-world P (err e, w) h = h

  pub Holds-lift :
      {A : Type 0} (P : World X → Type 0) (r : Result A)
      → Holds P (lift r) (λ a w. (r ≡ ok a) × P w) (λ e. P)
  Holds-lift P (ok a) w h = (refl, h)
  Holds-lift P (err e) w h = h

  pub Holds-if :
      {A : Type 0} (P : World X → Type 0) (Q : A → World X → Type 0) (E : Error → World X → Type 0)
      (b : Bool) (m n : Action X A)
      → (b ≡ true → Holds P m Q E)
      → (b ≡ false → Holds P n Q E)
      → Holds P (if b then m else n) Q E
  Holds-if P Q E true m n hm hn = hm refl
  Holds-if P Q E false m n hm hn = hn refl

  -- Of the database and of what is outside.
  abbrev pub Both : (Db → Type 0) → (X → Type 0) → World X → Type 0
  Both D O w = D w.db × O w.outside

  After-forget :
      {A : Type 0} (D : Db → Type 0) (O : X → Type 0) (r : Result A × World X)
      → After (λ a. Both D O) (λ e. Both D O) r
      → After (λ a. Both D O) (λ e w. O w.outside) r
  After-forget D O (ok a, w) h = h
  After-forget D O (err e, w) h = h.1

  -- Within a transaction, the database does not matter after an error.
  pub Holds-forget :
      {A : Type 0} (D : Db → Type 0) (O : X → Type 0) (m : Action X A)
      → Keeps (Both D O) m
      → Holds (Both D O) m (λ a. Both D O) (λ e w. O w.outside)
  Holds-forget D O m h w p = After-forget D O (m w) (h w p)

  -- A call whose end does not matter.
  pub Keeps-call :
      {A : Type 0} (D : Db → Type 0) (O : X → Type 0) (f : X → Result A × X)
      → ((x : X) → O x → O (f x).1)
      → Keeps (Both D O) (call f)
  Keeps-call D O f h w (d, p) =
      After-call_result (λ a. Both D O) (λ e. Both D O) w.db (f w.outside)
        (λ a e. (d, h w.outside p)) (λ e. (d, h w.outside p))

module _ {S X : Type 0} (o : Outside S X) (O : X → Type 0) where
  -- The failures of the database leave it as it is.
  abbrev pub IsQuiet : Type 0
  IsQuiet = (x : X) → O x → O (o.fails x).1

  -- So does the end of a COMMIT, and its answer is true.
  abbrev pub IsSettled : Type 0
  IsSettled =
      (x : X) → O x → O (o.commits x).1 × ((e : Error) → (o.commits x).0 ≢ applied_unanswered e)

  module _ (q : IsQuiet) where
    After-statement_result :
        {A : Type 0} (D : Db → Type 0) (Q : A → World X → Type 0) (E : Error → World X → Type 0)
        (f : Db → Result A × Db) (db : Db) (r : Option Error × X)
        → ((x : X) → O x → After Q E ((f db).0, record { db = (f db).1; outside = x }))
        → ((e : Error) (x : X) → O x → E e (record { db = db; outside = x }))
        → O r.1
        → After Q E (statement_result o f db r)
    After-statement_result D Q E f db (none, x) hq he p = hq x p
    After-statement_result D Q E f db (some e, x) hq he p = he e x p

    pub Holds-statement :
        {A : Type 0} (D : Db → Type 0) (Q : A → World X → Type 0) (E : Error → World X → Type 0)
        (f : Db → Result A × Db)
        → ((db : Db) (x : X)
            → D db
            → O x
            → After Q E ((f db).0, record { db = (f db).1; outside = x }))
        → ((e : Error) (db : Db) (x : X) → D db → O x → E e (record { db = db; outside = x }))
        → Holds (Both D O) (statement o f) Q E
    Holds-statement D Q E f hq he w (d, p) =
        After-statement_result D Q E f w.db (o.fails w.outside) (λ x. hq w.db x d)
          (λ e x. he e w.db x d) (q w.outside p)

    -- A statement that keeps what is known of the database.
    pub Keeps-update :
        (D : Db → Type 0) (f : Db → Db)
        → ((db : Db) → D db → D (f db))
        → Keeps (Both D O) (update o f)
    Keeps-update D f h =
        Holds-statement D (λ a. Both D O) (λ e. Both D O) (λ db. (ok tt, f db))
          (λ db x d p. (h db d, p)) (λ e db x d p. (d, p))

    -- A statement of a transaction, that changes what is known of the database.
    pub Holds-update :
        (D E : Db → Type 0) (f : Db → Db)
        → ((db : Db) → D db → E (f db))
        → Holds (Both D O) (update o f) (λ a. Both E O) (λ e w. O w.outside)
    Holds-update D E f h =
        Holds-statement D (λ a. Both E O) (λ e w. O w.outside) (λ db. (ok tt, f db))
          (λ db x d p. (h db d, p)) (λ e db x d p. p)

    After-commit_result :
        {A : Type 0} (D E : Db → Type 0) (before db : Db) (a : A) (r : CommitEnd × X)
        → D before
        → E db
        → O r.1
        → ((f : Error) → r.0 ≢ applied_unanswered f)
        → After (λ a. Both E O) (λ e. Both D O) (commit_result o before a db r)
    After-commit_result D E before db a (applied, x) d e p told = (e, p)
    After-commit_result D E before db a (refused f, x) d e p told = (d, p)
    After-commit_result D E before db a (applied_unanswered f, x) d e p told = absurd (told f refl)

    After-committed :
        {A : Type 0} (D E : Db → Type 0) (before : Db) (r : Result A × World X)
        → IsSettled
        → D before
        → After (λ a. Both E O) (λ e w. O w.outside) r
        → After (λ a. Both E O) (λ e. Both D O) (committed o before r)
    After-committed D E before (ok a, w) c d (e, p) =
        After-commit_result D E before w.db a (o.commits w.outside) d e (c w.outside p).0
          (c w.outside p).1
    After-committed D E before (err e, w) c d p = (d, p)

    -- A transaction: the database is as before where it ends with an error, as no answer is lost.
    pub Holds-within_tx :
        {A : Type 0} (D E : Db → Type 0) (m : Action X A)
        → IsSettled
        → Holds (Both D O) m (λ a. Both E O) (λ e w. O w.outside)
        → Holds (Both D O) (within_tx o m) (λ a. Both E O) (λ e. Both D O)
    Holds-within_tx D E m c h =
        Holds-bind (Both D O) (λ a. Both D O) (λ a. Both E O) (λ e. Both D O) (update o (λ db. db))
          (λ a w. committed o w.db (m w)) (Keeps-update D (λ db. db) (λ db d. d))
          (λ a w (d, p). After-committed D E w.db (m w) c d (h w (d, p)))
