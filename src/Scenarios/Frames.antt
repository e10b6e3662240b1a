-- ===== src/Scenarios/Frames.antt =====
-- The codec theorems on concrete frames.
use realesatecrm.Base.{ℕ, ◌≤◌, ◌*◌, ◌≡◌, ◌⊎◌, refl, [], ◌∷◌, ◌++◌, arith, length, List}
use realesatecrm.Core.Errors.{ok}
use realesatecrm.Voice.Audio.{pcma_to_pcm16, pcm16_to_pcma, encode_entry, decode_entry}
use realesatecrm.Voice.Audio.RoundTrip.{
  distance, magnitude, quantisation_error, pcm16_to_pcma-pcma_to_pcm16,
}
use realesatecrm.Voice.Audio.Frames.{pcm16_to_pcma-odd}

abbrev frame : List ℕ
frame = 0xD5 ∷ 0x00 ∷ 0x7F ∷ []

abbrev samples : List ℕ
samples = 0x10 ∷ 0x27 ∷ 0xFF ∷ 0xFF ∷ []

pcm16_to_pcma-pcma_to_pcm16_example : pcm16_to_pcma (pcma_to_pcm16 frame) ≡ ok frame
pcm16_to_pcma-pcma_to_pcm16_example = pcm16_to_pcma-pcma_to_pcm16 frame (omega arith)

quantisation_error_example :
    (distance (decode_entry (encode_entry 10000)) 10000 ≤ 8)
    ⊎ (32 * distance (decode_entry (encode_entry 10000)) 10000 ≤ magnitude 10000)
quantisation_error_example = quantisation_error 10000 (omega arith)

pcm16_to_pcma-odd_example :
    (out : List ℕ) × (pcm16_to_pcma samples ≡ ok out)
    × (pcm16_to_pcma (samples ++ 7 ∷ []) ≡ ok out)
    × (length out ≡ 2)
pcm16_to_pcma-odd_example = pcm16_to_pcma-odd samples 7 refl
