-- ===== src/Db/Growth.antt =====
-- How a table grows: its rows stay, each related to what it was, and new rows of a kind come in front.
use realesatecrm.Base.{
  ◌≡◌, Bool, true, List, [], ◌∷◌, All, Bool-cases, inl, inr, sym, subst, select,
}
use realesatecrm.Db.Table.{update_where, select_one}

pub data Grows {A : Type 0} (N : A → Type 0) (R : A → A → Type 0) : List A → List A → Type 0 where
  empty : Grows N R [] []
  kept : {a b : A} {xs ys : List A} → R a b → Grows N R xs ys → Grows N R (a ∷ xs) (b ∷ ys)
  added : {b : A} {xs ys : List A} → N b → Grows N R xs ys → Grows N R xs (b ∷ ys)

module _ {A : Type 0} (N : A → Type 0) (R : A → A → Type 0) where
  pub Grows-same : ((a : A) → R a a) → (xs : List A) → Grows N R xs xs
  Grows-same r [] = empty
  Grows-same r (x ∷ xs) = kept (r x) (Grows-same r xs)

  pub Grows-trans :
      ((a b c : A) → R a b → R b c → R a c)
      → ((a b : A) → N a → R a b → N b)
      → (ys zs : List A) (xs : List A) → Grows N R ys zs
      → Grows N R xs ys
      → Grows N R xs zs
  Grows-trans t n _ _ xs empty p = p
  Grows-trans t n ys _ xs (added {ys = zs} m q) p = added m (Grows-trans t n ys zs xs q p)
  Grows-trans t n _ _ _ (kept {xs = ys} {ys = zs} k q) (kept {xs = xs} h p) =
      kept (t _ _ _ h k) (Grows-trans t n ys zs xs q p)
  Grows-trans t n _ _ xs (kept {xs = ys} {ys = zs} k q) (added m p) =
      added (n _ _ m k) (Grows-trans t n ys zs xs q p)

  -- What holds of all rows goes on to hold, if R keeps it and new rows have it.
  pub Grows-All :
      (P : A → Type 0)
      → ((a b : A) → R a b → P a → P b)
      → ((b : A) → N b → P b)
      → (xs ys : List A) → Grows N R xs ys
      → All P xs
      → All P ys
  Grows-All P keep new _ _ empty h = tt
  Grows-All P keep new _ _ (kept {xs = xs} {ys = ys} r g) h =
      (keep _ _ r h.0, Grows-All P keep new xs ys g h.1)
  Grows-All P keep new xs _ (added {ys = ys} n g) h = (new _ n, Grows-All P keep new xs ys g h)

  -- An update that relates each row that it writes to what it was.
  pub Grows-update_where :
      ((a : A) → R a a)
      → (q : A → Bool) (f : A → A) (rs : List A) → All (λ a. q a ≡ true → R a (f a)) rs
      → Grows N R rs (update_where q f rs)
  Grows-update_where r q f [] h = empty
  Grows-update_where r q f (a ∷ rs) h = elim (Bool-cases (q a)) [
    | inl e ↦ rw e (kept (h.0 e) (Grows-update_where r q f rs h.1))
    | inr e ↦ rw e (kept (r a) (Grows-update_where r q f rs h.1))
  ]

  -- An update of the one row that its test selects.
  pub Grows-update_one :
      ((a : A) → R a a)
      → (q : A → Bool) (f : A → A) (b : A) (rs : List A) → select q rs ≡ b ∷ []
      → R b (f b)
      → Grows N R rs (update_where q f rs)
  Grows-update_one r q f b rs found step =
      Grows-update_where r q f rs (go rs (select_one q rs b found))
    where
      go : (xs : List A) → All (λ a. q a ≡ true → a ≡ b) xs → All (λ a. q a ≡ true → R a (f a)) xs
      go [] h = tt
      go (x ∷ xs) h = (λ e. subst (λ y. R y (f y)) (sym (h.0 e)) step, go xs h.1)

-- The kind of the new rows and the relation may be weakened.
pub Grows-map :
    {A : Type 0} {N M : A → Type 0} {R S : A → A → Type 0} {xs ys : List A}
    → ((b : A) → N b → M b)
    → ((a b : A) → R a b → S a b)
    → Grows N R xs ys
    → Grows M S xs ys
Grows-map n r empty = empty
Grows-map n r (kept h g) = kept (r _ _ h) (Grows-map n r g)
Grows-map n r (added h g) = added (n _ h) (Grows-map n r g)
