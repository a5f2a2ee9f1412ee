-- ===== src/Wav.antt =====
-- The header of a WAV file: src/modules/systemRecording/utils/pcm-to-wav.util.ts. A buffer is a list of
-- bytes. `writeUInt32LE` and `writeUInt16LE` throw at a value that does not fit.
pub mod RoundTrip
use comm_care.Prelude.{
  ℕ, ◌+◌, ◌*◌, ◌/◌, ◌%◌, Option, none, some, List, [], ◌∷◌, ◌++◌, if◌then◌else◌, ltb, length,
}

infixl 5 ◌>>=◌
abbrev pub ◌>>=◌ : {A B : Type 0} → Option A → (A → Option B) → Option B
none >>= f = none
some a >>= f = f a

abbrev pub wav_header_size : ℕ
wav_header_size = 44

abbrev pub bits_per_sample : ℕ
bits_per_sample = 16

unfoldable pub write_uint16_le : ℕ → Option (List ℕ)
write_uint16_le n = if ltb n 65536 then some (n % 256 ∷ n / 256 ∷ []) else none

unfoldable pub write_uint32_le : ℕ → Option (List ℕ)
write_uint32_le n =
    if ltb n 4294967296
    then some (n % 256 ∷ n / 256 % 256 ∷ n / 65536 % 256 ∷ n / 16777216 ∷ [])
    else none

-- The letters "RIFF", "WAVE", "fmt " and "data"
abbrev pub riff : List ℕ
riff = 82 ∷ 73 ∷ 70 ∷ 70 ∷ []

abbrev pub wave : List ℕ
wave = 87 ∷ 65 ∷ 86 ∷ 69 ∷ []

abbrev pub fmt : List ℕ
fmt = 102 ∷ 109 ∷ 116 ∷ 32 ∷ []

abbrev pub letters_of_data : List ℕ
letters_of_data = 100 ∷ 97 ∷ 116 ∷ 97 ∷ []

unfoldable pub pcm_to_wav : List ℕ → ℕ → ℕ → Option (List ℕ)
unfolding write_uint16_le write_uint32_le
pcm_to_wav pcm sample_rate channels = do
  let block_align = channels * (bits_per_sample / 8)
  riff_size ← write_uint32_le (36 + length pcm)
  fmt_size ← write_uint32_le 16
  audio_format ← write_uint16_le 1
  channel_count ← write_uint16_le channels
  rate ← write_uint32_le sample_rate
  byte_rate ← write_uint32_le (sample_rate * block_align)
  align ← write_uint16_le block_align
  bits ← write_uint16_le bits_per_sample
  size ← write_uint32_le (length pcm)
  some (
      riff
      ++ (riff_size
          ++ (wave
              ++ (fmt
                  ++ (fmt_size
                      ++ (audio_format
                          ++ (channel_count
                              ++ (rate
                                  ++ (byte_rate
                                      ++ (align
                                          ++ (bits ++ (letters_of_data ++ (size ++ pcm)))))))))))))
