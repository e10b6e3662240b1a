-- ===== src/Agent/Cleared.antt =====
-- `find_and_reconcile_stuck_jobs`: the jobs that it finds, and what is left of them.
use realesatecrm.Base.{
  ℕ, ◌≡◌, refl, sym, subst, ap, ◌∙◌, String, Bool, true, false, Option, none, List, [], ◌∷◌, arith,
  select, All, Any, map, Bool-cases, ==_iff, ◌==◌, ltb, inl, inr,
}
use realesatecrm.Core.Errors.{Result, ok}
use realesatecrm.Db.Rows.{Db, CallJob}
use realesatecrm.Db.Action.{Stmt, Engine, pure, ◌>>=◌}
use realesatecrm.Db.Table.{update_where}
use realesatecrm.Db.Inversion.{>>=-eq-ok}
use realesatecrm.Agent.Transitions.{is_one_of}
use realesatecrm.Agent.Repository.{
  is_stuck, new_status_of, reconcile_job, reconcile_jobs, find_and_reconcile_stuck_jobs,
}
use realesatecrm.Agent.Moves.{Evolves-IsChange}
use realesatecrm.Agent.Identity.{Continues-IsChange}
use realesatecrm.Agent.Logic.{continue}
use realesatecrm.Agent.Reconcile.{flying, out, reconcile_job-done}

-- What the reconciliation returns of a job.
abbrev pub named : CallJob → ℕ × String
named j = (j.id, new_status_of j)

module _ (eng : Engine) where
  -- Every job that the test selects is still to be done.
  abbrev AllToDo : (CallJob → Bool) → List CallJob → List CallJob → Type 0
  AllToDo q jobs xs = All (λ j. q j ≡ true → Any (λ (k : CallJob). k.id ≡ j.id) jobs) xs

  -- A job that is timed out is no longer in flight.
  out_lands : (k j : CallJob) → flying (out eng k j) ≡ false
  unfolding is_one_of
  out_lands k j = elim (Bool-cases (ltb k.attempt_count k.max_attempts)) [
    | inl e ↦ rw e refl
    | inr e ↦ rw e refl
  ]

  AllToDo-update :
      (q : CallJob → Bool) (k : CallJob) (jobs xs : List CallJob)
      → ((j : CallJob) → q j ≡ true → flying j ≡ true)
      → AllToDo q (k ∷ jobs) xs
      → AllToDo q jobs (update_where (λ j. j.id == k.id) (out eng k) xs)
  AllToDo-update q k jobs [] in_flight h = tt
  AllToDo-update q k jobs (j ∷ xs) in_flight h = elim (Bool-cases (j.id == k.id)) [
    | inl e ↦ rw e (
      λ still. absurd (ground (arith, in_flight (out eng k j) still, out_lands k j)),
      AllToDo-update q k jobs xs in_flight h.1,
    )
    | inr e ↦ rw e (
      λ still. elim (h.0 still) [
        | inl same ↦ absurd (ground (arith, same, ==_iff j.id k.id))
        | inr later ↦ later
      ],
      AllToDo-update q k jobs xs in_flight h.1,
    )
  ]

  none_left : (q : CallJob → Bool) (xs : List CallJob) → AllToDo q [] xs → All (λ j. q j ≡ false) xs
  none_left q [] h = tt
  none_left q (j ∷ xs) h =
      (elim (Bool-cases (q j)) [ inl e ↦ absurd (h.0 e) | inr e ↦ e ], none_left q xs h.1)

  reconcile_jobs-clears :
      (q : CallJob → Bool) (jobs : List CallJob) (db db' : Db) (done : List (ℕ × String))
      → ((j : CallJob) → q j ≡ true → flying j ≡ true)
      → AllToDo q jobs db.call_jobs
      → reconcile_jobs eng jobs db ≡ (ok done, db')
      → All (λ j. q j ≡ false) db'.call_jobs × (done ≡ map named jobs)
  unfolding reconcile_jobs
  reconcile_jobs-clears q [] db db' done in_flight h e = (
    none_left q db'.call_jobs (
        subst (λ (d : Db). AllToDo q [] d.call_jobs)
          (ap (λ (r : Result (List (ℕ × String)) × Db). r.1) e) h),
    ground (arith, e),
  )
  reconcile_jobs-clears q (k ∷ jobs) db db' done in_flight h e =
      let (u, db1, e1, e2) =
        >>=-eq-ok (reconcile_job eng k)
          (λ _. reconcile_jobs eng jobs >>= λ rest. pure (named k ∷ rest)) db e in
      let (rest, db2, e3, e4) =
        >>=-eq-ok (reconcile_jobs eng jobs) (λ rest. pure (named k ∷ rest)) db1 e2 in
      let left =
        subst (AllToDo q jobs) (sym (reconcile_job-done eng k db db1 u e1))
          (AllToDo-update q k jobs db.call_jobs in_flight h) in
      let (clear, names) = reconcile_jobs-clears q jobs db1 db2 rest in_flight left e3 in
      (
        subst (λ (d : Db). All (λ j. q j ≡ false) d.call_jobs)
            (ap (λ (r : Result (List (ℕ × String)) × Db). r.1) e4) clear,
        ground (arith, e4, names),
      )

  one_more :
      (q : CallJob → Bool) (k : CallJob) (jobs xs : List CallJob)
      → AllToDo q jobs xs
      → AllToDo q (k ∷ jobs) xs
  one_more q k jobs [] h = tt
  one_more q k jobs (j ∷ xs) h = (λ e. inr (h.0 e), one_more q k jobs xs h.1)

  all_listed : (q : CallJob → Bool) (xs : List CallJob) → AllToDo q (select q xs) xs
  all_listed q [] = tt
  all_listed q (j ∷ xs) = elim (Bool-cases (q j)) [
    | inl e ↦
        let sel : select q (j ∷ xs) ≡ j ∷ select q xs = rw e refl in
        subst (λ (js : List CallJob). AllToDo q js (j ∷ xs)) (sym sel)
          (λ _. inl refl, one_more q j (select q xs) xs (all_listed q xs))
    | inr e ↦
        let sel : select q (j ∷ xs) ≡ select q xs = rw e refl in
        subst (λ (js : List CallJob). AllToDo q js (j ∷ xs)) (sym sel)
          (λ yes. absurd (cc), all_listed q xs)
  ]

  reconcile_job-returns :
      (k : CallJob) (db : Db)
      → eng.fault Stmt.reconcile_call_job db ≡ none
      → reconcile_job eng k db ≡ (ok tt, (reconcile_job eng k db).1)
  unfolding reconcile_job
  reconcile_job-returns k db free = ground arith

  reconcile_jobs-returns :
      (jobs : List CallJob) (db : Db)
      → ((d : Db) → eng.fault Stmt.reconcile_call_job d ≡ none)
      → (db' : Db) × (reconcile_jobs eng jobs db ≡ (ok (map named jobs), db'))
  unfolding reconcile_jobs
  reconcile_jobs-returns [] db calm = (db, refl)
  reconcile_jobs-returns (k ∷ jobs) db calm =
      let (db', rest) = reconcile_jobs-returns jobs (reconcile_job eng k db).1 calm in
      let listed = λ (done : List (ℕ × String)). pure (named k ∷ done) in
      (
        db',
        ap (continue (λ _. reconcile_jobs eng jobs >>= listed))
              (reconcile_job-returns k db (calm db))
            ∙ ap (continue listed) rest,
      )

  -- If PostgreSQL does not refuse the update, a pass of the reconciliation returns, names the jobs that
  -- were stuck with where each goes, and leaves none of them stuck: a job counts as stuck while it
  -- is in flight, was last touched too long ago, is in the scope, and was not locked when the pass
  -- began.
  pub reconcile-clears :
      (scope : Option ℕ) (minutes : ℕ) (db : Db)
      → ((d : Db) → eng.fault Stmt.reconcile_call_job d ≡ none)
      → (db' : Db) × (find_and_reconcile_stuck_jobs eng scope minutes db
          ≡ (ok (map named (select (is_stuck eng scope minutes db) db.call_jobs)), db'))
        × All (λ j. is_stuck eng scope minutes db j ≡ false) db'.call_jobs
  unfolding find_and_reconcile_stuck_jobs
  reconcile-clears scope minutes db calm =
      let (db', returns) =
        reconcile_jobs-returns (select (is_stuck eng scope minutes db) db.call_jobs) db calm in
      let clear =
        reconcile_jobs-clears (is_stuck eng scope minutes db)
          (select (is_stuck eng scope minutes db) db.call_jobs) db db'
          (map named (select (is_stuck eng scope minutes db) db.call_jobs))
          (λ j h. ground (arith, h)) (all_listed (is_stuck eng scope minutes db) db.call_jobs)
          returns in
      (db', returns, clear.0)
