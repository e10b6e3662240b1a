-- ===== src/Agent/Identity.antt =====
-- The ids of the call jobs, and the changes that keep them apart.
use realesatecrm.Base.{
  ℕ, ◌≡◌, ◌≢◌, refl, sym, subst, ◌∙◌, Bool, true, List, [], ◌∷◌, arith, select, All, Bool-cases,
  ==_iff, ◌==◌, inl, inr,
}
use realesatecrm.Db.Rows.{CallJob}
use realesatecrm.Db.Action.{Action}
use realesatecrm.Db.Table.{update_where, select-update_where_off}
use realesatecrm.Db.Growth.{Grows, Grows-same, Grows-trans, Grows-map, empty, kept, added}
use realesatecrm.Agent.Jobs.{Becomes, Becomes-refl, Becomes-trans, Born, Born-Becomes}
use realesatecrm.Agent.Moves.{Evolves, Evolves-IsChange}
use realesatecrm.Agent.Logic.{IsChange, Moves}

-- No two jobs have one id: the primary key of call_jobs.
abbrev pub Distinct : List CallJob → Type 0
Distinct [] = Unit {0}
Distinct (j ∷ js) = All (λ k. k.id ≢ j.id) js × Distinct js

All-select :
    (P : CallJob → Type 0) (q : CallJob → Bool) (js : List CallJob) → All P js → All P (select q js)
All-select P q [] h = tt
All-select P q (j ∷ js) h = elim (Bool-cases (q j)) [
  | inl e ↦ rw e (h.0, All-select P q js h.1)
  | inr e ↦ rw e (All-select P q js h.1)
]

pub Distinct-select :
    (q : CallJob → Bool) (js : List CallJob) → Distinct js → Distinct (select q js)
Distinct-select q [] h = tt
Distinct-select q (j ∷ js) h = elim (Bool-cases (q j)) [
  | inl e ↦ rw e (All-select (λ k. k.id ≢ j.id) q js h.0, Distinct-select q js h.1)
  | inr e ↦ rw e (Distinct-select q js h.1)
]

others_off :
    (id : ℕ) (js : List CallJob) → All (λ k. k.id ≢ id) js → select (λ j. j.id == id) js ≡ []
others_off id [] h = refl
others_off id (j ∷ js) h = elim (Bool-cases (j.id == id)) [
  | inl e ↦ absurd (h.0 ((==_iff j.id id).0 e))
  | inr e ↦ rw e (others_off id js h.1)
]

-- Each job is the one job of its id.
abbrev pub Only : List CallJob → CallJob → Type 0
Only xs k = select (λ j. j.id == k.id) xs ≡ k ∷ []

same_self : (id : ℕ) → (id == id) ≡ true
same_self id = (==_iff id id).1 refl

Only-cons :
    (j : CallJob) (js rest : List CallJob)
    → All (λ k. k.id ≢ j.id) rest
    → All (Only js) rest
    → All (Only (j ∷ js)) rest
Only-cons j js [] off only = tt
Only-cons j js (k ∷ rest) off only = elim (Bool-cases (j.id == k.id)) [
  | inl e ↦ absurd (off.0 (sym ((==_iff j.id k.id).0 e)))
  | inr e ↦ (rw e only.0, Only-cons j js rest off.1 only.1)
]

pub Distinct-Only : (js : List CallJob) → Distinct js → All (Only js) js
Distinct-Only [] h = tt
Distinct-Only (j ∷ js) h = (
  rw (same_self j.id) (rw (others_off j.id js h.0) refl),
  Only-cons j js js h.0 (Distinct-Only js h.1),
)

pub select-Only :
    (q : CallJob → Bool) (js : List CallJob) → Distinct js → All (Only js) (select q js)
select-Only q js h = All-select (Only js) q js (Distinct-Only js h)

-- An update of other jobs leaves the one job of an id.
pub Only-update :
    (id : ℕ) (f : CallJob → CallJob) (xs rest : List CallJob)
    → ((j : CallJob) → (f j).id ≡ j.id)
    → All (λ k. k.id ≢ id) rest
    → All (Only xs) rest
    → All (Only (update_where (λ j. j.id == id) f xs)) rest
Only-update id f xs [] keep off only = tt
Only-update id f xs (k ∷ rest) keep off only = (
  select-update_where_off (λ j. j.id == k.id) (λ j. j.id == id) f xs
        (λ r e. ground (arith, e, off.0)) (λ r e. ground (arith, e, off.0, keep r))
      ∙ only.0,
  Only-update id f xs rest keep off.1 only.1,
)

off_later :
    (id : ℕ) (xs ys : List CallJob)
    → Evolves xs ys
    → All (λ k. k.id ≢ id) xs
    → All (λ k. k.id ≢ id) ys
off_later id _ _ empty h = tt
off_later id _ _ (kept {a = a} {xs = xs} {ys = ys} r g) h =
    (λ e. h.0 (sym r.same_id ∙ e), off_later id xs ys g h.1)
off_later id _ _ (added n g) h = absurd n

pub Evolves-Distinct : (xs ys : List CallJob) → Evolves xs ys → Distinct xs → Distinct ys
Evolves-Distinct _ _ empty h = tt
Evolves-Distinct _ _ (kept {a = a} {b = b} {xs = xs} {ys = ys} r g) h = (
  subst (λ i. All (λ k. k.id ≢ i) ys) (sym r.same_id) (off_later a.id xs ys g h.0),
  Evolves-Distinct xs ys g h.1,
)
Evolves-Distinct _ _ (added n g) h = absurd n

-- Jobs with ids of their own stay so, each a later version of itself, with new ones in front.
pub record Lives (xs ys : List CallJob) : Type 0 where
  pub apart : Distinct ys
  pub grows : Grows Born Becomes xs ys

unfoldable pub Continues : List CallJob → List CallJob → Type 0
Continues xs ys = Distinct xs → Lives xs ys

instance pub Continues-IsChange : IsChange Continues
unfolding Continues
Continues-IsChange = record {
  same = λ xs h. record { apart = h; grows = Grows-same Born Becomes Becomes-refl xs };
  chain = λ xs ys zs p q h.
      let first = p h in
      let second = q first.apart in
      record {
        apart = second.apart;
        grows =
            Grows-trans Born Becomes Becomes-trans Born-Becomes ys zs xs second.grows first.grows;
      };
}

pub Evolves-Continues : (xs ys : List CallJob) → Evolves xs ys → Continues xs ys
unfolding Continues
Evolves-Continues xs ys g h = record {
  apart = Evolves-Distinct xs ys g h;
  grows = Grows-map (λ b n. absurd n) (λ a b r. r) g;
}

pub Moves-Continues : {A : Type 0} (m : Action A) → Moves Evolves m → Moves Continues m
unfolding Moves
Moves-Continues m k db = Evolves-Continues db.call_jobs (m db).1.call_jobs (k db)
