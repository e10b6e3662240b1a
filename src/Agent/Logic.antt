-- ===== src/Agent/Logic.antt =====
-- How a coroutine moves the table of call jobs, from how its parts do: a rule for each way in which
-- backend/app/agent puts coroutines together.
use realesatecrm.Base.{
  ℕ, ◌≡◌, refl, subst, sym, ap, ◌∙◌, Bool, true, false, Option, none, some, List, [], ◌∷◌, ◌⊎◌, inl,
  inr, arith, select, if◌then◌else◌, Bool-cases,
}
use realesatecrm.Core.Errors.{AppError, Raised, Result, ok, raised}
use realesatecrm.Db.Rows.{Db, CallJob}
use realesatecrm.Db.Action.{Action, Engine, ◌>>=◌, ◌>>◌, raise_if, or_raise, on_error}
use realesatecrm.Agent.Repository.{is_job, claim_job_for_update}

-- It leaves the jobs alone.
unfoldable pub Keeps : {A : Type 0} → Action A → Type 0
Keeps m = (db : Db) → (m db).1.call_jobs ≡ db.call_jobs

-- The one job of that id and tenant.
abbrev pub Held : ℕ → ℕ → CallJob → Db → Type 0
Held t id j db = select (is_job t id) db.call_jobs ≡ j ∷ []

pub claim-Held :
    (eng : Engine) (t id : ℕ) (db : Db) {o : Option CallJob} {db' : Db}
    → claim_job_for_update eng t id db ≡ (ok o, db')
    → (db' ≡ db) × ((o ≡ none) ⊎ ((j : CallJob) × (o ≡ some j) × Held t id j db))
unfolding claim_job_for_update
claim-Held eng t id db {o} {db'} h = elim (Bool-cases (eng.locked id db)) [
  | inl e ↦ (ground arith, inl (ground arith))
  | inr e ↦ go e (select (is_job t id) db.call_jobs) refl
]
  where
    go :
        eng.locked id db ≡ false
        → (rows : List CallJob) → select (is_job t id) db.call_jobs ≡ rows
        → (db' ≡ db) × ((o ≡ none) ⊎ ((j : CallJob) × (o ≡ some j) × Held t id j db))
    go free [] e = (ground arith, inl (ground arith))
    go free (j ∷ []) e = (ground arith, inr (j, ground arith, e))
    go free (j ∷ k ∷ r) e = absurd (ground arith)

pub claim-Keeps : (eng : Engine) (t id : ℕ) → Keeps (claim_job_for_update eng t id)
unfolding Keeps claim_job_for_update
claim-Keeps eng t id db = ground arith

abbrev pub continue : {A B : Type 0} → (A → Action B) → Result A × Db → Result B × Db
continue f x = let (r, db) = x in elim r [ ok a ↦ f a db | raised e ↦ (raised e, db) ]

-- What a chain leaves is what its first part leaves if that raises, and what the rest leaves else.
pub >>=-leaves :
    {A B : Type 0} (Q : Db → Type 0) (m : Action A) (f : A → Action B) (db : Db)
    → ((e : Raised) (db' : Db) → m db ≡ (raised e, db') → Q db')
    → ((a : A) (db' : Db) → m db ≡ (ok a, db') → Q (f a db').1)
    → Q ((m >>= f) db).1
>>=-leaves {A} {B} Q m f db bad good = go (m db) refl
  where
    go : (r : Result A × Db) → m db ≡ r → Q (continue f r).1
    go (ok a, db') e = good a db' e
    go (raised x, db') e = bad x db' e

pub >>=-Keeps :
    {A B : Type 0} (m : Action A) (f : A → Action B)
    → Keeps m
    → ((a : A) → Keeps (f a))
    → Keeps (m >>= f)
unfolding Keeps
>>=-Keeps m f k l db =
    >>=-leaves (λ x. x.call_jobs ≡ db.call_jobs) m f db
      (λ e db' h. ap (λ (r : Result _ × Db). r.1.call_jobs) (sym h) ∙ k db)
      (λ a db' h. l a db' ∙ ap (λ (r : Result _ × Db). r.1.call_jobs) (sym h) ∙ k db)

-- A kind of change of the table: nothing is one, and one after another is one.
pub record IsChange (R : List CallJob → List CallJob → Type 0) : Type 0 where
  pub same : (xs : List CallJob) → R xs xs
  pub chain : (xs ys zs : List CallJob) → R xs ys → R ys zs → R xs zs

module _ (R : List CallJob → List CallJob → Type 0) ⦃change : IsChange R⦄ where
  -- It moves the jobs as R says, where P holds of them before.
  unfoldable pub MovesFrom : {A : Type 0} → (List CallJob → Type 0) → Action A → Type 0
  MovesFrom P m = (db : Db) → P db.call_jobs → R db.call_jobs (m db).1.call_jobs

  unfoldable pub Moves : {A : Type 0} → Action A → Type 0
  Moves m = (db : Db) → R db.call_jobs (m db).1.call_jobs

  module _ {A B : Type 0} (m : Action A) (f : A → Action B) where
    jobs_after : {r : Result A} {db db' : Db} → m db ≡ (r, db') → (m db).1.call_jobs ≡ db'.call_jobs
    jobs_after h = ap (λ (r : Result A × Db). r.1.call_jobs) h

    pub >>=-Moves : Moves m → ((a : A) → Moves (f a)) → Moves (m >>= f)
    unfolding Keeps Moves MovesFrom
    >>=-Moves k l db =
        >>=-leaves (λ x. R db.call_jobs x.call_jobs) m f db
          (λ e db' h. subst (R db.call_jobs) (jobs_after h) (k db))
          (λ a db' h.
            change.chain db.call_jobs db'.call_jobs (f a db').1.call_jobs
              (subst (R db.call_jobs) (jobs_after h) (k db)) (l a db'))

    pub >>=-MovesFrom :
        (P : List CallJob → Type 0)
        → MovesFrom P m
        → ((a : A) → Moves (f a))
        → MovesFrom P (m >>= f)
    unfolding Keeps Moves MovesFrom
    >>=-MovesFrom P k l db p =
        >>=-leaves (λ x. R db.call_jobs x.call_jobs) m f db
          (λ e db' h. subst (R db.call_jobs) (jobs_after h) (k db p))
          (λ a db' h.
            change.chain db.call_jobs db'.call_jobs (f a db').1.call_jobs
              (subst (R db.call_jobs) (jobs_after h) (k db p)) (l a db'))

    -- After a part that leaves the jobs alone, the same is known of them.
    pub Keeps->>= :
        (P : List CallJob → Type 0)
        → Keeps m
        → ((a : A) → MovesFrom P (f a))
        → MovesFrom P (m >>= f)
    unfolding Keeps Moves MovesFrom
    Keeps->>= P k l db p =
        >>=-leaves (λ x. R db.call_jobs x.call_jobs) m f db
          (λ e db' h. subst (R db.call_jobs) (sym (k db) ∙ jobs_after h) (change.same db.call_jobs))
          (λ a db' h.
            let same = sym (k db) ∙ jobs_after h in
            subst (λ xs. R xs (f a db').1.call_jobs) (sym same) (l a db' (subst P same p)))

  -- A guard lets through only where its test is false.
  pub raise_if->>= :
      {B : Type 0} (P : List CallJob → Type 0) (c : Bool) (e : AppError) (k : Action B)
      → (c ≡ false → MovesFrom P k)
      → MovesFrom P (raise_if c e >> k)
  unfolding Keeps Moves MovesFrom
  raise_if->>= P true e k h db p = change.same db.call_jobs
  raise_if->>= P false e k h db p = h refl db p

  pub or_raise->>= :
      {A B : Type 0} (P : List CallJob → Type 0) (o : Option A) (e : AppError) (f : A → Action B)
      → ((a : A) → o ≡ some a → MovesFrom P (f a))
      → MovesFrom P (or_raise o e >>= f)
  unfolding Keeps Moves MovesFrom
  or_raise->>= P none e f h db p = change.same db.call_jobs
  or_raise->>= P (some a) e f h db p = h a refl db p

  -- What follows a claim, and the error of a job that is not there.
  pub claim-from->>= :
      {B : Type 0} (P : List CallJob → Type 0) (eng : Engine) (t id : ℕ) (e : AppError)
      (f : CallJob → Action B)
      → ((j : CallJob) → MovesFrom (λ xs. P xs × (select (is_job t id) xs ≡ j ∷ [])) (f j))
      → MovesFrom P (claim_job_for_update eng t id >>= λ o. or_raise o e >>= f)
  unfolding Keeps Moves MovesFrom
  claim-from->>= P eng t id e f h db p =
      >>=-leaves (λ x. R db.call_jobs x.call_jobs) (claim_job_for_update eng t id)
        (λ o. or_raise o e >>= f) db
        (λ x db' q.
          subst (R db.call_jobs)
            (sym (claim-Keeps eng t id db)
              ∙ ap (λ (r : Result (Option CallJob) × Db). r.1.call_jobs) q)
            (change.same db.call_jobs))
        (λ o db' q. go o db' (claim-Held eng t id db q))
    where
      go :
          (o : Option CallJob) (db' : Db)
          → (db' ≡ db) × ((o ≡ none) ⊎ ((j : CallJob) × (o ≡ some j) × Held t id j db))
          → R db.call_jobs ((or_raise o e >>= f) db').1.call_jobs
      go none db' (same, _) =
          subst (λ (x : Db). R x.call_jobs db'.call_jobs) same (change.same db'.call_jobs)
      go (some j) db' (same, inl none_found) = absurd (cc)
      go (some j) db' (same, inr (j', e', held)) =
          subst (λ (x : Db). R x.call_jobs (f j db').1.call_jobs) same
            (h j db' (
              subst (λ (x : Db). P x.call_jobs × (select (is_job t id) x.call_jobs ≡ j ∷ []))
                (sym same) (p, ground (arith, held, e'))))

  pub claim->>= :
      {B : Type 0} (eng : Engine) (t id : ℕ) (e : AppError) (f : CallJob → Action B)
      → ((j : CallJob) → MovesFrom (λ xs. select (is_job t id) xs ≡ j ∷ []) (f j))
      → Moves (claim_job_for_update eng t id >>= λ o. or_raise o e >>= f)
  unfolding Keeps Moves MovesFrom
  claim->>= eng t id e f h db =
      claim-from->>= (λ _. Unit {0}) eng t id e f (λ j db' p. h j db' p.1) db tt

  pub if-Moves :
      {A : Type 0} (c : Bool) (m k : Action A) → Moves m → Moves k → Moves (if c then m else k)
  unfolding Keeps Moves MovesFrom
  if-Moves true m k p q = p
  if-Moves false m k p q = q

  pub if-MovesFrom :
      {A : Type 0} (P : List CallJob → Type 0) (c : Bool) (m k : Action A)
      → MovesFrom P m
      → MovesFrom P k
      → MovesFrom P (if c then m else k)
  unfolding Keeps Moves MovesFrom
  if-MovesFrom P true m k p q = p
  if-MovesFrom P false m k p q = q

  -- Where nothing has to be known.
  pub Moves-MovesFrom :
      {A : Type 0} (P : List CallJob → Type 0) (m : Action A) → Moves m → MovesFrom P m
  unfolding Keeps Moves MovesFrom
  Moves-MovesFrom P m k db p = k db

  pub Keeps-Moves : {A : Type 0} (m : Action A) → Keeps m → Moves m
  unfolding Keeps Moves MovesFrom
  Keeps-Moves m k db = subst (R db.call_jobs) (sym (k db)) (change.same db.call_jobs)

  pub Keeps-MovesFrom :
      {A : Type 0} (P : List CallJob → Type 0) (m : Action A) → Keeps m → MovesFrom P m
  unfolding Keeps Moves MovesFrom
  Keeps-MovesFrom P m k db p = Keeps-Moves m k db

  -- What holds of the jobs once the first part has returned is known to the rest.
  pub >>=-MovesThen :
      {A B : Type 0} (m : Action A) (f : A → Action B) (P Q : List CallJob → Type 0)
      → MovesFrom P m
      → ((db db' : Db) (a : A) → P db.call_jobs → m db ≡ (ok a, db') → Q db'.call_jobs)
      → ((a : A) → MovesFrom Q (f a))
      → MovesFrom P (m >>= f)
  unfolding Keeps Moves MovesFrom
  >>=-MovesThen m f P Q k known l db p =
      >>=-leaves (λ x. R db.call_jobs x.call_jobs) m f db
        (λ e db' h. subst (R db.call_jobs) (jobs_after m f h) (k db p))
        (λ a db' h.
          change.chain db.call_jobs db'.call_jobs (f a db').1.call_jobs
            (subst (R db.call_jobs) (jobs_after m f h) (k db p)) (l a db' (known db db' a p h)))

  -- A block that is tried moves the jobs, and then its handler may.
  pub on_error-MovesFrom :
      {A : Type 0} (m : Action A) (h : Action (Unit {0})) (P : List CallJob → Type 0)
      → MovesFrom P m
      → ((db : Db) → P db.call_jobs → P (m db).1.call_jobs)
      → MovesFrom P h
      → MovesFrom P (on_error m h)
  unfolding Keeps Moves MovesFrom
  on_error-MovesFrom {A} m h P k keep l db p = go (m db) refl
    where
      go : (r : Result A × Db) → m db ≡ r → R db.call_jobs (on_error (λ _. r) h db).1.call_jobs
      go (ok a, db') e =
          subst (R db.call_jobs) (ap (λ (r : Result A × Db). r.1.call_jobs) e) (k db p)
      go (raised x, db') e =
          let moved =
            subst (R db.call_jobs) (ap (λ (r : Result A × Db). r.1.call_jobs) e) (k db p) in
          let p' = subst P (ap (λ (r : Result A × Db). r.1.call_jobs) e) (keep db p) in
          >>=-leaves (λ y. R db.call_jobs y.call_jobs) h (λ _ db''. (raised x, db'')) db'
            (λ y db'' q. change.chain db.call_jobs db'.call_jobs db''.call_jobs moved (
              subst (R db'.call_jobs) (ap (λ (r : Result (Unit {0}) × Db). r.1.call_jobs) q)
                (l db' p')))
            (λ u db'' q. change.chain db.call_jobs db'.call_jobs db''.call_jobs moved (
              subst (R db'.call_jobs) (ap (λ (r : Result (Unit {0}) × Db). r.1.call_jobs) q)
                (l db' p')))
