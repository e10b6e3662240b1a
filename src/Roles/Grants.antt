-- ===== src/Roles/Grants.antt =====
-- What a replacement of grants comes to, as lists: backend/app/roles/repository.py.
use realesatecrm.Base.{
  ℕ, ◌≡◌, ◌≢◌, refl, subst, inl, inr, String, Bool, true, not, ◌||◌, List, [], ◌∷◌, ◌++◌, map,
  select, length, arith, All, ◌==◌, ==_iff, str_eq, str_eq_iff, Bool-cases,
}
use realesatecrm.Db.Rows.{PermissionRow, RolePermission}
use realesatecrm.Db.Table.{delete_where}
use realesatecrm.Security.Context.{contains}
use realesatecrm.Roles.Repository.{granted_codes, codes_with, put, values, ids_by_code, grant}

module _ (i id : ℕ) where
  -- The grants of the other roles are as they were.
  kept_grants :
      i ≢ id
      → (gs : List RolePermission)
      → select (λ g. g.role_id == i) (delete_where (λ g. g.role_id == id) gs)
        ≡ select (λ g. g.role_id == i) gs
  kept_grants other [] = refl
  kept_grants other (g ∷ gs) =
      ground (arith, kept_grants other gs, ==_iff g.role_id i, ==_iff g.role_id id)

  pub other_grants :
      i ≢ id
      → (ps : List ℕ) (gs : List RolePermission)
      → select (λ g. g.role_id == i) (map (grant id) ps ++ delete_where (λ g. g.role_id == id) gs)
        ≡ select (λ g. g.role_id == i) gs
  other_grants other [] gs = kept_grants other gs
  other_grants other (p ∷ ps) gs = ground (arith, other_grants other ps gs, ==_iff id i)

module _ (id : ℕ) where
  no_grants :
      (gs : List RolePermission)
      → select (λ g. g.role_id == id) (delete_where (λ g. g.role_id == id) gs) ≡ []
  no_grants [] = refl
  no_grants (g ∷ gs) = ground (arith, no_grants gs)

  -- The grants of the role are the new ones.
  pub new_grants :
      (ps : List ℕ) (gs : List RolePermission)
      → select (λ g. g.role_id == id) (map (grant id) ps ++ delete_where (λ g. g.role_id == id) gs)
        ≡ map (grant id) ps
  new_grants [] gs = no_grants gs
  new_grants (p ∷ ps) gs = ground (arith, new_grants ps gs)

contains-append :
    (c : String) (xs ys : List String) → contains c (xs ++ ys) ≡ (contains c xs || contains c ys)
unfolding contains
contains-append c [] ys = refl
contains-append c (x ∷ xs) ys = ground (arith, contains-append c xs ys)

-- Codes that grants come to satisfy what the codes of each granted permission satisfy.
pub granted-All :
    (Q : String → Type 0) (c : String) (perms : List PermissionRow) (id : ℕ) (ps : List ℕ)
    → All (λ v. contains c (codes_with v perms) ≡ true → Q c) ps
    → contains c (granted_codes perms (map (grant id) ps)) ≡ true
    → Q c
unfolding granted_codes contains
granted-All Q c perms id [] h e = absurd (cc)
granted-All Q c perms id (p ∷ ps) h e = elim (Bool-cases (contains c (codes_with p perms))) [
  | inl here ↦ h.0 here
  | inr later ↦ granted-All Q c perms id ps h.1 (
      ground
        (arith, contains-append c (codes_with p perms) (granted_codes perms (map (grant id) ps))))
]

-- A code that nothing asked for lacks is held.
pub held :
    (c : String) (holds : List String) (asked : List String)
    → length (select (λ a. not (contains a holds)) asked) ≡ 0
    → contains c asked ≡ true
    → contains c holds ≡ true
unfolding contains
held c holds [] n e = absurd (cc)
held c holds (a ∷ asked) n e = elim (Bool-cases (contains a holds)) [
  | inl own ↦ elim (Bool-cases (str_eq a c)) [
    | inl same ↦ subst (λ x. contains x holds ≡ true) ((str_eq_iff a c).0 same) own
    | inr other ↦ held c holds asked (ground arith) (ground arith)
  ]
  | inr lacks ↦ absurd (ground arith)
]

module _ (Q : ℕ → Type 0) where
  put-All :
      (k : String) (v : ℕ) (d : List (String × ℕ))
      → Q v
      → All Q (values d)
      → All Q (values (put k v d))
  unfolding put
  put-All k v [] q h = (q, tt)
  put-All k v ((j, w) ∷ d) q h = elim (Bool-cases (str_eq j k)) [
    | inl e ↦ rw e (q, h.1)
    | inr e ↦ rw e (h.0, put-All k v d q h.1)
  ]

  -- The ids of a dict of rows are ids of these rows.
  pub ids-All :
      (rows : List PermissionRow) (d : List (String × ℕ))
      → All (λ p. Q p.id) rows
      → All Q (values d)
      → All Q (values (ids_by_code rows d))
  unfolding ids_by_code
  ids-All [] d h k = k
  ids-All (p ∷ ps) d h k = ids-All ps (put p.code p.id d) h.1 (put-All p.code p.id d h.0 k)

pub All-select {ℓ} :
    {A : Type 0} (P : A → Type ℓ) (q : A → Bool) (xs : List A)
    → All (λ x. q x ≡ true → P x) xs
    → All P (select q xs)
All-select P q [] h = tt
All-select P q (x ∷ xs) h = elim (Bool-cases (q x)) [
  | inl e ↦ rw e (h.0 e, All-select P q xs h.1)
  | inr e ↦ rw e (All-select P q xs h.1)
]

pub select-All {ℓ} :
    {A : Type 0} (P : A → Type ℓ) (q : A → Bool) (xs : List A)
    → All P (select q xs)
    → All (λ x. q x ≡ true → P x) xs
select-All P q [] h = tt
select-All P q (x ∷ xs) h = elim (Bool-cases (q x)) [
  | inl e ↦
      let h' : All P (x ∷ select q xs) = subst (All P) {y = x ∷ select q xs} (ground arith) h in
      (λ _. h'.0, select-All P q xs h'.1)
  | inr e ↦
      let h' : All P (select q xs) = subst (All P) {y = select q xs} (ground arith) h in
      (λ t. absurd (cc), select-All P q xs h')
]
