-- ===== src/Voice/Audio/RoundTrip.antt =====
-- The two codec directions of backend/app/voice/audio.py against each other.
use realesatecrm.Base.{
  ℕ, zero, suc, ◌-◌, ◌*◌, ◌%◌, ◌≤◌, ◌<◌, ◌≡◌, refl, ap, ◌⊎◌, Bool, true, false, if◌then◌else◌, ◌&&◌,
  ◌||◌, List, [], ◌∷◌, map, arith, ltb, leb, ◌==◌, if◌then◌else◌, length, take, All,
}
use realesatecrm.Core.Errors.{ok}
use realesatecrm.Voice.Audio.{
  decode_entry, encode_entry, samples_of_bytes, pcma_to_pcm16, pcm16_to_pcma,
}

-- Whether a test passes at every value below a bound.
passes_below : (ℕ → Bool) → ℕ → Bool
passes_below test zero = true
passes_below test (suc bound) =
    let lower = passes_below test bound in if test bound then lower else false

passes_below-test :
    (test : ℕ → Bool) (bound v : ℕ) → v < bound → passes_below test bound ≡ true → test v ≡ true
unfolding passes_below
passes_below-test test zero v below passed = elim below [ ]
passes_below-test test (suc bound) v below passed = ground (arith, passes_below-test test bound v)

abbrev good_byte : ℕ → Bool
good_byte b = (encode_entry (decode_entry b) == b) && ltb (decode_entry b) 0x10000

byte_table : passes_below good_byte 256 ≡ true
unfolding passes_below encode_entry decode_entry
byte_table = refl

encode-decode : (b : ℕ) → b < 256 → encode_entry (decode_entry b) ≡ b
encode-decode b h = ground (arith, passes_below-test good_byte 256 b h byte_table)

decode_entry-lt : (b : ℕ) → b < 256 → decode_entry b < 0x10000
decode_entry-lt b h = ground (arith, passes_below-test good_byte 256 b h byte_table)

-- The size of a signed sample, given by its 16-bit pattern.
abbrev pub magnitude : ℕ → ℕ
magnitude v = if leb 0x8000 v then 0x10000 - v else v

abbrev pub distance : ℕ → ℕ → ℕ
distance a b = if leb a b then b - a else a - b

abbrev good_sample : ℕ → Bool
good_sample v =
    let err = distance (decode_entry (encode_entry v)) v in
    ltb (encode_entry v) 256 && (leb err 8 || leb (32 * err) (magnitude v))

sample_table : passes_below good_sample 0x10000 ≡ true
unfolding passes_below encode_entry decode_entry
sample_table = refl

pub encode_entry-lt : (v : ℕ) → v < 0x10000 → encode_entry v < 256
encode_entry-lt v h = ground (arith, passes_below-test good_sample 0x10000 v h sample_table)

-- Coding a 16-bit sample and decoding it again moves it by at most 8 units, or by at most a
-- thirty-second of its size.
pub quantisation_error :
    (v : ℕ)
    → v < 0x10000
    → let err = distance (decode_entry (encode_entry v)) v in (err ≤ 8) ⊎ (32 * err ≤ magnitude v)
quantisation_error v h = ground (arith, passes_below-test good_sample 0x10000 v h sample_table)

abbrev pub IsBytes : List ℕ → Type 0
IsBytes = All (λ b. b < 256)

-- Decoding doubles the number of bytes.
pub length-pcma_to_pcm16 : (bs : List ℕ) → length (pcma_to_pcm16 bs) ≡ 2 * length bs
unfolding pcma_to_pcm16
length-pcma_to_pcm16 [] = refl
length-pcma_to_pcm16 (b ∷ bs) = omega (arith, length-pcma_to_pcm16 bs)

take-length : (xs : List ℕ) → take (length xs) xs ≡ xs
take-length [] = refl
take-length (x ∷ xs) = cc (take-length xs)

samples-pcma_to_pcm16 :
    (bs : List ℕ) → IsBytes bs → samples_of_bytes (pcma_to_pcm16 bs) ≡ ok (map decode_entry bs)
unfolding samples_of_bytes pcma_to_pcm16
samples-pcma_to_pcm16 [] h = refl
samples-pcma_to_pcm16 (b ∷ bs) h =
    ground (arith, decode_entry-lt b h.0, samples-pcma_to_pcm16 bs h.1)

encode-decode_all : (bs : List ℕ) → IsBytes bs → map encode_entry (map decode_entry bs) ≡ bs
encode-decode_all [] h = refl
encode-decode_all (b ∷ bs) h = cc (encode-decode b h.0, encode-decode_all bs h.1)

-- Decoding a frame of telephone bytes and coding it again gives the same bytes.
pub pcm16_to_pcma-pcma_to_pcm16 :
    (bs : List ℕ) → IsBytes bs → pcm16_to_pcma (pcma_to_pcm16 bs) ≡ ok bs
unfolding pcm16_to_pcma
pcm16_to_pcma-pcma_to_pcm16 bs h =
    let even : length (pcma_to_pcm16 bs) - length (pcma_to_pcm16 bs) % 2
        ≡ length (pcma_to_pcm16 bs) =
      omega (arith, length-pcma_to_pcm16 bs) in
    rw (even, take-length, samples-pcma_to_pcm16 bs h) (ap ok (encode-decode_all bs h))
