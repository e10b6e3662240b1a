-- ===== src/Contacts/Numbers.antt =====
-- One number is one text: what `normalize_phone` makes of the ways to write a number.
use realesatecrm.Base.{
  ℕ, ◌≡◌, ◌≤◌, refl, ◌⊎◌, inl, inr, ap, sym, ◌∙◌, true, [], ◌∷◌, ◌++◌, arith, length, all, Text,
  codes,
}
use realesatecrm.Core.Errors.{ok}
use realesatecrm.Contacts.Phone.{
  is_digit, is_digits, is_separator, strip_left, strip_right, without_separators, normalize_cleaned,
  normalize_phone,
}

without-strip_left : (s : Text) → without_separators (strip_left s) ≡ without_separators s
unfolding strip_left
without-strip_left [] = refl
without-strip_left (c ∷ s) = ground (arith, without-strip_left s)

without-strip_right : (s : Text) → without_separators (strip_right s) ≡ without_separators s
unfolding strip_right
without-strip_right [] = refl
without-strip_right (c ∷ s) = ground (arith, without-strip_right s)

normalize_phone_lem : (s : Text) → normalize_phone s ≡ normalize_cleaned (without_separators s)
unfolding normalize_phone
normalize_phone_lem s =
    ap normalize_cleaned (without-strip_right (strip_left s) ∙ without-strip_left s)

without-digits : (s : Text) → all is_digit s ≡ true → without_separators s ≡ s
without-digits [] h = refl
without-digits (c ∷ s) h = ground (arith, without-digits s)

-- A hyphen, a parenthesis or white space.
abbrev pub Ignored : ℕ → Type 0
Ignored c =
    (c ≡ 45)
    ⊎ (c ≡ 40)
    ⊎ (c ≡ 41)
    ⊎ ((9 ≤ c) × (c ≤ 13))
    ⊎ ((28 ≤ c) × (c ≤ 32))
    ⊎ (c ≡ 133)
    ⊎ (c ≡ 160)

-- Two texts that differ in such characters alone, wherever they stand.
pub data SameNumber : Text → Text → Type 0 where
  both_end : SameNumber [] []
  both : {s r : Text} (c : ℕ) → SameNumber s r → SameNumber (c ∷ s) (c ∷ r)
  ignored_left : {s r : Text} (c : ℕ) → Ignored c → SameNumber s r → SameNumber (c ∷ s) r
  ignored_right : {s r : Text} (c : ℕ) → Ignored c → SameNumber s r → SameNumber s (c ∷ r)

Ignored-separator : (c : ℕ) → Ignored c → is_separator c ≡ true
Ignored-separator c h = ground (arith, h)

SameNumber-without : {s r : Text} → SameNumber s r → without_separators s ≡ without_separators r
SameNumber-without both_end = refl
SameNumber-without (both c h) = ground (arith, SameNumber-without h)
SameNumber-without (ignored_left c i h) = rw (Ignored-separator c i) (SameNumber-without h)
SameNumber-without (ignored_right c i h) = rw (Ignored-separator c i) (SameNumber-without h)

-- Two texts that differ in hyphens, parentheses and white space alone, wherever these stand, are the
-- same number, or neither is one.
pub normalize_phone-separators :
    {s r : Text} → SameNumber s r → normalize_phone s ≡ normalize_phone r
normalize_phone-separators {s} {r} h =
    normalize_phone_lem s
    ∙ ap normalize_cleaned (SameNumber-without h)
    ∙ sym (normalize_phone_lem r)

-- A plus sign and at least one digit.
abbrev pub International : Text → Type 0
International r = (ds : Text) × (r ≡ b'+' ∷ ds) × (is_digits ds ≡ true)

normalize_cleaned-cases :
    (c : ℕ) (s : Text) {r : Text}
    → normalize_cleaned (c ∷ s) ≡ ok r
    → ((r ≡ b'+' ∷ s) × (is_digits s ≡ true))
      ⊎ ((is_digits (c ∷ s) ≡ true) × ((r ≡ codes "+91" ++ c ∷ s) ⊎ (r ≡ b'+' ∷ c ∷ s)))
unfolding normalize_cleaned
normalize_cleaned-cases c s h = ground arith

indian_digits :
    (c : ℕ) (s : Text) → is_digits (c ∷ s) ≡ true → is_digits (codes "91" ++ c ∷ s) ≡ true
unfolding is_digits
indian_digits c s h = ground arith

normalize_cleaned-International :
    (s : Text) {r : Text} → normalize_cleaned s ≡ ok r → International r
unfolding normalize_cleaned
normalize_cleaned-International [] h = absurd (cc)
normalize_cleaned-International (c ∷ s) h = elim (normalize_cleaned-cases c s h) [
  | inl (e, digits) ↦ (s, e, digits)
  | inr (digits, inl e) ↦ (codes "91" ++ c ∷ s, e, indian_digits c s digits)
  | inr (digits, inr e) ↦ (c ∷ s, e, digits)
]

International-fixed : (r : Text) → International r → normalize_phone r ≡ ok r
unfolding normalize_cleaned is_digits
International-fixed r (d ∷ ds, e, h) =
    ground (arith, normalize_phone_lem r, without-digits (d ∷ ds))
International-fixed r ([], e, h) = absurd (ground arith)

-- A normalised number is a plus sign and at least one digit, and normalising it again changes
-- nothing.
pub normalize_phone-idempotent :
    (s : Text) {r : Text} → normalize_phone s ≡ ok r → (normalize_phone r ≡ ok r) × International r
normalize_phone-idempotent s {r} h =
    let shape =
      normalize_cleaned-International (without_separators s) (sym (normalize_phone_lem s) ∙ h) in
    (International-fixed r shape, shape)

-- Ten digits are an Indian number, with or without 91 or +91 in front.
pub normalize_phone-indian :
    (ds : Text)
    → is_digits ds ≡ true
    → length ds ≡ 10
    → (normalize_phone ds ≡ ok (codes "+91" ++ ds))
      × (normalize_phone (codes "91" ++ ds) ≡ ok (codes "+91" ++ ds))
      × (normalize_phone (codes "+91" ++ ds) ≡ ok (codes "+91" ++ ds))
unfolding normalize_cleaned is_digits
normalize_phone-indian [] h k = absurd (ground arith)
normalize_phone-indian (c ∷ s) h k =
    let digits = without-digits (c ∷ s) (ground arith) in
    (
      normalize_phone_lem (c ∷ s) ∙ ap normalize_cleaned digits ∙ ground arith,
      normalize_phone_lem (codes "91" ++ c ∷ s)
          ∙ ap (λ x. normalize_cleaned (codes "91" ++ x)) digits
          ∙ ground arith,
      normalize_phone_lem (codes "+91" ++ c ∷ s)
          ∙ ap (λ x. normalize_cleaned (codes "+91" ++ x)) digits
          ∙ ground arith,
    )
