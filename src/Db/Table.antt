-- ===== src/Db/Table.antt =====
-- Statements on a table, and how they change the rows that a test selects.
use realesatecrm.Base.{
  ℕ, ◌≤◌, ◌≡◌, refl, Bool, true, false, not, Option, none, some, List, [], ◌∷◌, arith, ◌==◌,
  if◌then◌else◌, length, select, All, Bool-cases, inl, inr,
}

-- `IS NULL`
abbrev pub is_null : Option ℕ → Bool
is_null none = true
is_null (some a) = false

-- `COALESCE(a, b)`
abbrev pub coalesce {ℓ} : {A : Type ℓ} → Option A → A → A
coalesce none b = b
coalesce (some a) b = a

-- `AND tenant_id = :tenant_id`, which is left out for a global caller.
abbrev pub in_scope : Option ℕ → ℕ → Bool
in_scope none t = true
in_scope (some u) t = t == u

module _ {ℓ} {A : Type ℓ} where
  -- `UPDATE … SET f WHERE p`
  abbrev pub update_where : (A → Bool) → (A → A) → List A → List A
  update_where p f [] = []
  update_where p f (r ∷ rs) = (if p r then f r else r) ∷ update_where p f rs

  -- `DELETE … WHERE p`
  abbrev pub delete_where : (A → Bool) → List A → List A
  delete_where p rs = select (λ r. not (p r)) rs

  -- No row that `p` selects is changed: the update does not show through `p`.
  pub select-update_where_off :
      (p q : A → Bool) (f : A → A) (rs : List A)
      → ((r : A) → q r ≡ true → p r ≡ false)
      → ((r : A) → q r ≡ true → p (f r) ≡ false)
      → select p (update_where q f rs) ≡ select p rs
  select-update_where_off p q f [] h k = refl
  select-update_where_off p q f (r ∷ rs) h k =
      ground (arith, select-update_where_off p q f rs h k, h r, k r)

  -- Rows that the update takes out of `p` are gone from it, if all of `p` is updated.
  pub select-update_where_gone :
      (p q : A → Bool) (f : A → A) (rs : List A)
      → All (λ r. p r ≡ true → q r ≡ true) rs
      → ((r : A) → q r ≡ true → p (f r) ≡ false)
      → select p (update_where q f rs) ≡ []
  select-update_where_gone p q f [] h k = refl
  select-update_where_gone p q f (r ∷ rs) h k =
      ground (arith, select-update_where_gone p q f rs h.1 k, h.0, k r)

  -- An update that only takes rows out of `p` leaves no more rows in it.
  pub length-select-update_where :
      (p q : A → Bool) (f : A → A) (rs : List A)
      → ((r : A) → p (f r) ≡ true → p r ≡ true)
      → length (select p (update_where q f rs)) ≤ length (select p rs)
  length-select-update_where p q f [] k = omega arith
  length-select-update_where p q f (r ∷ rs) k =
      ground (arith, length-select-update_where p q f rs k, k r)

  pub select_none : (p : A → Bool) (rs : List A) → select p rs ≡ [] → All (λ r. p r ≡ false) rs
  select_none p [] h = tt
  select_none p (r ∷ rs) h = elim (Bool-cases (p r)) [
    | inl e ↦ absurd (ground arith)
    | inr e ↦ (e, select_none p rs (ground arith))
  ]

  -- If one row alone is selected, every selected row is that one.
  pub select_one :
      (p : A → Bool) (rs : List A) (a : A) → select p rs ≡ a ∷ [] → All (λ r. p r ≡ true → r ≡ a) rs
  select_one p [] a h = tt
  select_one p (r ∷ rs) a h = elim (Bool-cases (p r)) [
    | inl e ↦ (λ _. ground arith, others rs (select_none p rs (ground arith)))
    | inr e ↦ (λ e'. ground arith, select_one p rs a (ground arith))
  ]
    where
      others : (qs : List A) → All (λ r. p r ≡ false) qs → All (λ r. p r ≡ true → r ≡ a) qs
      others [] n = tt
      others (q ∷ qs) n = (λ t. ground arith, others qs n.1)

  -- Rows that an update writes have what it writes, where every row of `p` is written.
  pub All-select-update_where {κ} :
      (p q : A → Bool) (f : A → A) (P : A → Type κ) (rs : List A)
      → ((r : A) → p r ≡ true → q r ≡ true)
      → ((r : A) → q r ≡ true → P (f r))
      → All P (select p (update_where q f rs))
  All-select-update_where p q f P [] h k = tt
  All-select-update_where p q f P (r ∷ rs) h k =
      let rest = All-select-update_where p q f P rs h k in
      elim (Bool-cases (q r)) [
        | inl e ↦
            rw e
              (elim (Bool-cases (p (f r))) [ inl e' ↦ rw e' (k r e, rest) | inr e' ↦ rw e' rest ])
        | inr e ↦
            rw e (elim (Bool-cases (p r)) [ inl e' ↦ absurd (cc (h r e')) | inr e' ↦ rw e' rest ])
      ]

  -- A selected row passes the test.
  pub select_head :
      (p : A → Bool) (rs : List A) (a : A) (l : List A) → select p rs ≡ a ∷ l → p a ≡ true
  select_head p [] a l h = absurd (cc)
  select_head p (r ∷ rs) a l h = ground (arith, select_head p rs a l)
