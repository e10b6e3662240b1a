-- ===== src/Agent/Order.antt =====
-- What `get_next_eligible_jobs` returns: backend/app/agent/orchestrator.py.
use realesatecrm.Base.{
  ℕ, zero, suc, ◌≤◌, ◌<◌, ◌≡◌, refl, ap, subst, inl, inr, true, false, Option, List, [], ◌∷◌, ◌++◌,
  map, take, drop, length, All, Bool-cases, arith,
}
use mathlib.Core.List.{Perm}
use mathlib.Core.List.Perm
use realesatecrm.Core.Errors.{ok}
use realesatecrm.Db.Rows.{Db}
use realesatecrm.Agent.Eligible
use realesatecrm.Agent.Eligible.{
  Due, precedes, place, in_order, eligible_rows, get_next_eligible_jobs,
}

-- By priority, then by the lead's score, highest first, then by the scheduled time.
abbrev pub NoLater : Due → Due → Type 0
NoLater a b =
    (a.job.priority ≤ b.job.priority)
    × (a.job.priority ≡ b.job.priority → b.lead_score ≤ a.lead_score)
    × (a.job.priority ≡ b.job.priority
        → a.lead_score ≡ b.lead_score
        → a.job.scheduled_at ≤ b.job.scheduled_at)

-- Each row comes no later than all that follow it.
abbrev pub InOrder : List Due → Type 0
InOrder [] = Unit
InOrder (r ∷ rs) = All (λ s. NoLater r s) rs × InOrder rs

precedes-NoLater : (a b : Due) → precedes a b ≡ true → NoLater a b
unfolding precedes
precedes-NoLater a b h = (ground arith, λ p. ground arith, λ p q. ground arith)

precedes-NoLater_else : (a b : Due) → precedes a b ≡ false → NoLater b a
unfolding precedes
precedes-NoLater_else a b h = (ground arith, λ p. ground arith, λ p q. ground arith)

NoLater-trans : (a b c : Due) → NoLater a b → NoLater b c → NoLater a c
NoLater-trans a b c (p, s, t) (p', s', t') = (
  omega arith,
  λ e.
      let first : a.job.priority ≡ b.job.priority = omega arith in
      let second : b.job.priority ≡ c.job.priority = omega arith in
      omega (arith, s first, s' second),
  λ e f.
      let first : a.job.priority ≡ b.job.priority = omega arith in
      let second : b.job.priority ≡ c.job.priority = omega arith in
      let high = s first in
      let high' = s' second in
      let equal : a.lead_score ≡ b.lead_score = omega arith in
      let equal' : b.lead_score ≡ c.lead_score = omega arith in
      omega (arith, t first equal, t' second equal'),
)

All-NoLater :
    (a b : Due) (rs : List Due)
    → NoLater a b
    → All (λ s. NoLater b s) rs
    → All (λ s. NoLater a s) rs
All-NoLater a b [] h k = tt
All-NoLater a b (r ∷ rs) h k = (NoLater-trans a b r h k.0, All-NoLater a b rs h k.1)

All-place : (P : Due → Type 0) (r : Due) (rs : List Due) → P r → All P rs → All P (place r rs)
unfolding place
All-place P r [] p h = (p, tt)
All-place P r (s ∷ ss) p h = elim (Bool-cases (precedes r s)) [
  | inl e ↦ rw e (p, h)
  | inr e ↦ rw e (h.0, All-place P r ss p h.1)
]

place-InOrder : (r : Due) (rs : List Due) → InOrder rs → InOrder (place r rs)
unfolding place
place-InOrder r [] h = (tt, tt)
place-InOrder r (s ∷ ss) h = elim (Bool-cases (precedes r s)) [
  | inl e ↦ let first = precedes-NoLater r s e in rw e ((first, All-NoLater r s ss first h.0), h)
  | inr e ↦
      rw e (
        All-place (λ q. NoLater s q) r ss (precedes-NoLater_else r s e) h.0,
        place-InOrder r ss h.1,
      )
]

in_order-InOrder : (rs : List Due) → InOrder (in_order rs)
unfolding in_order
in_order-InOrder [] = tt
in_order-InOrder (r ∷ rs) = place-InOrder r (in_order rs) (in_order-InOrder rs)

place-perm : (r : Due) (rs : List Due) → Perm (place r rs) (r ∷ rs)
unfolding place
place-perm r [] = Perm.refl (r ∷ [])
place-perm r (s ∷ ss) = elim (Bool-cases (precedes r s)) [
  | inl e ↦ rw e (Perm.refl (r ∷ s ∷ ss))
  | inr e ↦ rw e (Perm.trans (Perm.cons s (place-perm r ss)) (Perm.swap r s ss))
]

in_order-perm : (rs : List Due) → Perm (in_order rs) rs
unfolding in_order
in_order-perm [] = Perm.refl []
in_order-perm (r ∷ rs) = Perm.trans (place-perm r (in_order rs)) (Perm.cons r (in_order-perm rs))

module _ {A : Type 0} where
  take-append-drop : (n : ℕ) (xs : List A) → xs ≡ take n xs ++ drop n xs
  take-append-drop zero xs = refl
  take-append-drop (suc n) [] = refl
  take-append-drop (suc n) (x ∷ xs) = ap (λ l. x ∷ l) (take-append-drop n xs)

  length-take-le : (n : ℕ) (xs : List A) → length (take n xs) ≤ n
  length-take-le zero xs = omega arith
  length-take-le (suc n) [] = omega arith
  length-take-le (suc n) (x ∷ xs) = omega (arith, length-take-le n xs)

  drop-nil : (n : ℕ) (xs : List A) → length (take n xs) < n → drop n xs ≡ []
  drop-nil zero xs h = absurd (omega arith)
  drop-nil (suc n) [] h = refl
  drop-nil (suc n) (x ∷ xs) h = drop-nil n xs (omega arith)

-- The rows that are returned, and the eligible rows that are not.
pub record FirstOf (limit : ℕ) (rows : List Due) (batch rest : List Due) : Type 0 where
  pub same_rows : Perm rows (batch ++ rest)
  pub in_order : InOrder (batch ++ rest)
  pub at_most : length batch ≤ limit
  pub filled : length batch < limit → rest ≡ []

-- The query returns the first of the eligible rows, at most as many as asked for: every eligible row is
-- among those returned or those left out, each as often as it occurs; each row comes, by priority, then
-- by the score of the lead, highest first, then by the scheduled time, no later than those behind it, the
-- rows left out included; and none is left out unless as many as asked for are returned.
pub get_next_eligible_jobs-first :
    (now : ℕ) (scope : Option ℕ) (limit : ℕ) (db : Db)
    → (batch : List Due) × (rest : List Due) × FirstOf limit (eligible_rows now scope db) batch rest
      × (get_next_eligible_jobs now scope limit db ≡ (ok (map (λ (r : Due). r.job) batch), db))
unfolding get_next_eligible_jobs
get_next_eligible_jobs-first now scope limit db =
    let rows = eligible_rows now scope db in
    let sorted = Eligible.in_order rows in
    let whole = take-append-drop limit sorted in
    (
      take limit sorted,
      drop limit sorted,
      record {
        same_rows = subst (Perm rows) whole (Perm.symm (in_order-perm rows));
        in_order = subst InOrder whole (in_order-InOrder rows);
        at_most = length-take-le limit sorted;
        filled = drop-nil limit sorted;
      },
      refl,
    )
