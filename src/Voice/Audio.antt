-- ===== src/Voice/Audio.antt =====
-- backend/app/voice/audio.py: the G.711 A-law codec of the telephone leg, with its lookup tables
-- as functions of the byte or the sample.
pub mod RoundTrip
pub mod Frames
use Prim.Native.Nat.{bit_and, bit_or, bit_xor}
use realesatecrm.Base.{
  ℕ, zero, suc, ◌+◌, ◌-◌, ◌*◌, ◌/◌, ◌%◌, ◌^◌, Bool, true, false, List, [], ◌∷◌, map, ltb, leb, ◌==◌,
  if◌then◌else◌, length, take,
}
use realesatecrm.Core.Errors.{Result, ok, raised, value_error}
use realesatecrm.Base.Int.{ℤ, pos, negsuc, neg_ℕ}

-- CCITT G.711 `alaw2linear`.
unfoldable pub alaw_to_linear : ℕ → ℤ
alaw_to_linear a =
    let a_val = bit_xor a 0x55 in
    let low = bit_and a_val 0x0F * 2 ^ 4 in
    let seg = bit_and a_val 0x70 / 2 ^ 4 in
    let t =
      if seg == 0
      then low + 8
      else if seg == 1
      then low + 0x108
      else (low + 0x108) * 2 ^ (seg - 1) in
    if bit_and a_val 0x80 == 0 then neg_ℕ t else pos t

abbrev pub seg_aend : List ℕ
seg_aend = 0x1F ∷ 0x3F ∷ 0x7F ∷ 0xFF ∷ 0x1FF ∷ 0x3FF ∷ 0x7FF ∷ 0xFFF ∷ []

-- The `for` loop of `_linear_to_alaw`: the first segment whose end is not below the value; 8 if
-- there is none.
unfoldable pub find_segment : List ℕ → ℕ → ℕ → ℕ
find_segment [] i v = 8
find_segment (e ∷ es) i v = let rest = find_segment es (i + 1) v in if leb v e then i else rest

-- `pcm_val >> 3`, which rounds towards minus infinity.
abbrev pub shift_3 : ℤ → ℤ
shift_3 (pos n) = pos (n / 2 ^ 3)
shift_3 (negsuc n) = negsuc (n / 2 ^ 3)

-- The sign bit's mask, and the magnitude that is coded.
abbrev pub sign_mask : ℤ → ℕ × ℕ
sign_mask (pos n) = (0xD5, n)
sign_mask (negsuc n) = (0x55, n)

-- CCITT G.711 `linear2alaw`.
unfoldable pub linear_to_alaw : ℤ → ℕ
unfolding find_segment
linear_to_alaw pcm =
    let (mask, v) = sign_mask (shift_3 pcm) in
    let seg = find_segment seg_aend 0 v in
    if leb 8 seg
    then bit_xor 0x7F mask
    else let mantissa =
        if ltb seg 2 then bit_and (v / 2 ^ 1) 0x0F else bit_and (v / 2 ^ seg) 0x0F in
      bit_xor (bit_or (seg * 2 ^ 4) mantissa) mask

-- `value & 0xFFFF`: the 16-bit pattern of a signed sample.
abbrev pub low_16 : ℤ → ℕ
low_16 (pos n) = n % 0x10000
low_16 (negsuc n) = 0xFFFF - n % 0x10000

-- An entry of `_DECODE_TABLE`, as its unsigned 16-bit value.
unfoldable pub decode_entry : ℕ → ℕ
unfolding alaw_to_linear
decode_entry b = low_16 (alaw_to_linear b)

-- An entry of `_ENCODE_TABLE`.
unfoldable pub encode_entry : ℕ → ℕ
unfolding linear_to_alaw
encode_entry v = linear_to_alaw (if leb 0x8000 v then negsuc (0xFFFF - v) else pos v)

-- Two bytes for each byte, the low one first.
unfoldable pub pcma_to_pcm16 : List ℕ → List ℕ
pcma_to_pcm16 [] = []
pcma_to_pcm16 (b ∷ bs) = decode_entry b % 256 ∷ decode_entry b / 256 ∷ pcma_to_pcm16 bs

abbrev pub with_sample : ℕ → Result (List ℕ) → Result (List ℕ)
with_sample v (ok vs) = ok (v ∷ vs)
with_sample v (raised e) = raised e

-- `array("H").frombytes` on a little-endian machine: a `ValueError` where half a sample is left.
unfoldable pub samples_of_bytes : List ℕ → Result (List ℕ)
samples_of_bytes [] = ok []
samples_of_bytes (lo ∷ []) = raised value_error
samples_of_bytes (lo ∷ hi ∷ bs) = with_sample (lo + 256 * hi) (samples_of_bytes bs)

-- `bytes([table[v] for v in samples])`
abbrev pub encode_samples : Result (List ℕ) → Result (List ℕ)
encode_samples (ok vs) = ok (map encode_entry vs)
encode_samples (raised e) = raised e

unfoldable pub pcm16_to_pcma : List ℕ → Result (List ℕ)
unfolding samples_of_bytes
pcm16_to_pcma payload =
    let usable = length payload - length payload % 2 in
    encode_samples (samples_of_bytes (take usable payload))
