-- ===== src/Agent/Moves.antt =====
-- Every coroutine of backend/app/agent moves the jobs along their life.
use realesatecrm.Base.{
  ℕ, ◌≡◌, ◌≢◌, sym, subst, ◌⊎◌, inl, inr, String, Bool, true, false, not, Option, List, [], ◌∷◌,
  arith, select, All, Bool-cases,
}
use realesatecrm.Db.Rows.{Db, CallJob}
use realesatecrm.Db.Action.{Engine}
use realesatecrm.Db.Table.{update_where}
use realesatecrm.Db.Growth.{Grows, Grows-same, Grows-trans, Grows-update_one}
use realesatecrm.Agent.Transitions.{is_allowed}
use realesatecrm.Agent.Repository.{is_job, claim_job_for_update, write_job}
use realesatecrm.Agent.Orchestrator.{job_not_found, set_status, update_job_status}
use realesatecrm.Agent.Jobs.{Becomes, Becomes-refl, Becomes-trans}
use realesatecrm.Agent.Logic.{IsChange, MovesFrom, raise_if->>=, claim-from->>=}

-- No row is new.
abbrev pub NoneNew : CallJob → Type 0
NoneNew j = ⊥

-- The same jobs, each a later version of itself.
abbrev pub Evolves : List CallJob → List CallJob → Type 0
Evolves = Grows NoneNew Becomes

instance pub Evolves-IsChange : IsChange Evolves
Evolves-IsChange = record {
  same = Grows-same NoneNew Becomes Becomes-refl;
  chain = λ xs ys zs p q. Grows-trans NoneNew Becomes Becomes-trans (λ a b n _. n) ys zs xs q p;
}

pub not-false : (b : Bool) → not b ≡ false → b ≡ true
not-false b h = ground arith

module _ (eng : Engine) (t id : ℕ) where
  write_job-cases :
      (f : CallJob → CallJob) (db : Db)
      → ((write_job eng t id f db).1.call_jobs ≡ db.call_jobs)
        ⊎ ((write_job eng t id f db).1.call_jobs ≡ update_where (is_job t id) f db.call_jobs)
  unfolding write_job
  write_job-cases f db = ground arith

  pub write_job-MovesFrom :
      (P : List CallJob → Type 0) (f : CallJob → CallJob) (j : CallJob)
      → ((xs : List CallJob) → P xs → (select (is_job t id) xs ≡ j ∷ []) × Becomes j (f j))
      → MovesFrom Evolves P (write_job eng t id f)
  unfolding MovesFrom
  write_job-MovesFrom P f j known db p =
      let (held, step) = known db.call_jobs p in
      elim (write_job-cases f db) [
        | inl same ↦ subst (Evolves db.call_jobs) (sym same) (Evolves-IsChange.same db.call_jobs)
        | inr done ↦
            subst (Evolves db.call_jobs) (sym done) (
              Grows-update_one NoneNew Becomes Becomes-refl (is_job t id) f j db.call_jobs held
                step)
      ]

  pub update_job_status-MovesFrom :
      (P : List CallJob → Type 0) (s : String) (code : Option String)
      → ((j : CallJob) (xs : List CallJob)
          → P xs
          → select (is_job t id) xs ≡ j ∷ []
          → is_allowed j.status s ≡ true
          → Becomes j (set_status eng s code j))
      → MovesFrom Evolves P (update_job_status eng t id s code)
  unfolding update_job_status
  update_job_status-MovesFrom P s code step = claim-from->>= Evolves P eng t id job_not_found _ λ j.
      raise_if->>= Evolves (λ xs. P xs × (select (is_job t id) xs ≡ j ∷ [])) _ _ _
        λ passed.
          write_job-MovesFrom (λ xs. P xs × (select (is_job t id) xs ≡ j ∷ []))
            (set_status eng s code) j
            λ xs p. (p.1, step j xs p.0 p.1 (not-false (is_allowed j.status s) passed))

  -- No job of that id is being called.
  abbrev Quiet : List CallJob → Type 0
  Quiet xs = All (λ r. is_job t id r ≡ true → r.status ≢ "calling") xs

  Quiet-update :
      (s : String) (code : Option String) (xs : List CallJob)
      → s ≢ "calling"
      → Quiet (update_where (is_job t id) (set_status eng s code) xs)
  Quiet-update s code [] quiet = tt
  Quiet-update s code (r ∷ rs) quiet = elim (Bool-cases (is_job t id r)) [
    | inl e ↦ rw e (λ _. quiet, Quiet-update s code rs quiet)
    | inr e ↦ rw e (λ k. absurd (cc), Quiet-update s code rs quiet)
  ]

  pub update_job_status-cases :
      (s : String) (code : Option String) (db : Db)
      → ((update_job_status eng t id s code db).1.call_jobs ≡ db.call_jobs)
        ⊎ ((update_job_status eng t id s code db).1.call_jobs
            ≡ update_where (is_job t id) (set_status eng s code) db.call_jobs)
  unfolding update_job_status claim_job_for_update write_job
  update_job_status-cases s code db = ground arith
