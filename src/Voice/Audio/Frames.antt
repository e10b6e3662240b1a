-- ===== src/Voice/Audio/Frames.antt =====
-- Frames of samples through backend/app/voice/audio.py: lengths, and odd bytes.
use realesatecrm.Base.{
  ℕ, suc, ◌+◌, ◌*◌, ◌-◌, ◌/◌, ◌%◌, ◌≡◌, refl, ap, ◌∙◌, List, [], ◌∷◌, ◌++◌, map, arith, length,
  length-append, take,
}
use realesatecrm.Core.Errors.{ok}
use realesatecrm.Voice.Audio.{
  encode_entry, with_sample, samples_of_bytes, encode_samples, pcm16_to_pcma,
}

-- Whole samples are read, one for every two bytes.
samples_of_bytes-returns :
    (xs : List ℕ)
    → length xs % 2 ≡ 0
    → (vs : List ℕ) × (samples_of_bytes xs ≡ ok vs) × (length vs ≡ length xs / 2)
unfolding samples_of_bytes
samples_of_bytes-returns [] h = ([], refl, refl)
samples_of_bytes-returns (lo ∷ []) h = absurd (omega (arith, h))
samples_of_bytes-returns (lo ∷ hi ∷ bs) h =
    let (vs, read, count) = samples_of_bytes-returns bs (omega (arith, h)) in
    ((lo + 256 * hi) ∷ vs, ap (with_sample (lo + 256 * hi)) read, omega (arith, count))

take-append : (xs ys : List ℕ) → take (length xs) (xs ++ ys) ≡ xs
take-append [] ys = refl
take-append (x ∷ xs) ys = cc (take-append xs ys)

take-length : (xs : List ℕ) → take (length xs) xs ≡ xs
take-length [] = refl
take-length (x ∷ xs) = cc (take-length xs)

length-map : (f : ℕ → ℕ) (xs : List ℕ) → length (map f xs) ≡ length xs
length-map f [] = refl
length-map f (x ∷ xs) = ap suc (length-map f xs)

-- A frame of whole samples is coded, with or without an odd byte behind it: nothing is raised, the odd
-- byte changes nothing, and each whole sample gives one byte.
pub pcm16_to_pcma-odd :
    (xs : List ℕ) (b : ℕ)
    → length xs % 2 ≡ 0
    → (out : List ℕ) × (pcm16_to_pcma xs ≡ ok out)
      × (pcm16_to_pcma (xs ++ b ∷ []) ≡ ok out)
      × (length out ≡ length xs / 2)
unfolding pcm16_to_pcma
pcm16_to_pcma-odd xs b h =
    let (vs, read, count) = samples_of_bytes-returns xs h in
    let e : length (xs ++ b ∷ []) - length (xs ++ b ∷ []) % 2 ≡ length xs =
      omega (arith, length-append xs (b ∷ [])) in
    let e' : length xs - length xs % 2 ≡ length xs = omega arith in
    (
      map encode_entry vs,
      rw (e', take-length) (ap encode_samples read),
      rw (e, take-append) (ap encode_samples read),
      length-map encode_entry vs ∙ count,
    )
