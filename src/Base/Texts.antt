-- ===== src/Base/Texts.antt =====
-- Texts that the program walks through, as lists of code points below 256.
use Prim.Native.Nat.{ℕ, ◌+◌}
use Prim.Native.Char.{code}
use Prim.Native.String.{String}
use mathlib.Core.Bool.{Bool, true, false, ◌&&◌, ◌||◌}
use mathlib.Core.List.{List, [], ◌∷◌, map}
use mathlib.Core.Path.{◌≡◌, refl}
use mathlib.Core.Logic.{inl, inr}
use native.Mathlib.Omega.{arith}
use realesatecrm.Base.Tests.{leb, ◌==◌, ==_iff, Bool-cases, if◌then◌else◌}

abbrev pub Text : Type 0
Text = List ℕ

abbrev pub codes : String → Text
codes String.[] = []
codes (String.◌∷◌ c s) = code c ∷ codes s

-- `str.lower` on ASCII text.
abbrev pub lower_code : ℕ → ℕ
lower_code c = if leb b'A' c && leb c b'Z' then c + 32 else c

abbrev pub lower : Text → Text
lower = map lower_code

abbrev pub starts_with : Text → Text → Bool
starts_with [] s = true
starts_with (p ∷ ps) [] = false
starts_with (p ∷ ps) (c ∷ s) = (p == c) && starts_with ps s

-- `pattern in text`
unfoldable pub occurs_in : Text → Text → Bool
occurs_in p [] = starts_with p []
occurs_in p (c ∷ s) = starts_with p (c ∷ s) || occurs_in p s

-- `==` of texts
abbrev pub same_text : Text → Text → Bool
same_text [] [] = true
same_text [] (c ∷ s) = false
same_text (b ∷ r) [] = false
same_text (b ∷ r) (c ∷ s) = b == c && same_text r s

pub same_text-eq : (r s : Text) → same_text r s ≡ true → r ≡ s
same_text-eq [] [] h = refl
same_text-eq [] (c ∷ s) h = absurd (cc)
same_text-eq (b ∷ r) [] h = absurd (cc)
same_text-eq (b ∷ r) (c ∷ s) h = elim (Bool-cases (b == c)) [
  | inl e ↦
      let first : b ≡ c = (==_iff b c).0 e in
      let rest : r ≡ s = same_text-eq r s (ground (arith, h, e)) in cc
  | inr e ↦ absurd (ground (arith, h, e))
]

pub same_text_refl : (s : Text) → same_text s s ≡ true
same_text_refl [] = refl
same_text_refl (c ∷ s) = ground (arith, same_text_refl s, ==_iff c c)
