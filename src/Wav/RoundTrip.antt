-- ===== src/Wav/RoundTrip.antt =====
-- A reader of WAV files gets back what the header was written from.
use comm_care.Prelude.{
  ℕ, zero, suc, ◌+◌, ◌*◌, ◌/◌, ◌%◌, ◌<◌, ◌≡◌, refl, arith, Bool, true, false, ◌&&◌, Bool-cases, inl,
  inr, ◌⊎◌, ap, ◌∙◌, none, some, List, [], ◌∷◌, ◌++◌, if◌then◌else◌, ltb, length, get_elem?,
  or_else, All, All-append,
}
use comm_care.Wav.{pcm_to_wav, wav_header_size}

-- `readUInt16LE`, `readUInt32LE` and `subarray` of a buffer that is long enough
abbrev byte_at : List ℕ → ℕ → ℕ
byte_at bytes i = or_else (get_elem? bytes i) 0

abbrev pub read_uint16_le : List ℕ → ℕ → ℕ
read_uint16_le bytes i = byte_at bytes i + 256 * byte_at bytes (i + 1)

abbrev pub read_uint32_le : List ℕ → ℕ → ℕ
read_uint32_le bytes i =
    byte_at bytes i
    + 256 * byte_at bytes (i + 1)
    + 65536 * byte_at bytes (i + 2)
    + 16777216 * byte_at bytes (i + 3)

-- The four letters of a chunk's name
abbrev pub letters_at : List ℕ → ℕ → List ℕ
letters_at bytes i =
    byte_at bytes i ∷ byte_at bytes (i + 1) ∷ byte_at bytes (i + 2) ∷ byte_at bytes (i + 3) ∷ []

abbrev pub subarray : List ℕ → ℕ → List ℕ
subarray bytes zero = bytes
subarray [] (suc n) = []
subarray (b ∷ bytes) (suc n) = subarray bytes n

-- What a reader finds in the bytes: the fields of a header of uncompressed samples of 16 bits, in the
-- order of the format, and the samples.
pub record IsWav (pcm : List ℕ) (sample_rate channels : ℕ) (wav : List ℕ) : Type 0 where
  pub size : length wav ≡ wav_header_size + length pcm
  pub riff : letters_at wav 0 ≡ b'R' ∷ b'I' ∷ b'F' ∷ b'F' ∷ []
  pub riff_size : read_uint32_le wav 4 + 8 ≡ length wav
  pub wave : letters_at wav 8 ≡ b'W' ∷ b'A' ∷ b'V' ∷ b'E' ∷ []
  pub fmt : letters_at wav 12 ≡ b'f' ∷ b'm' ∷ b't' ∷ b' ' ∷ []
  pub fmt_size : read_uint32_le wav 16 ≡ 16
  pub audio_format : read_uint16_le wav 20 ≡ 1
  pub channel_count : read_uint16_le wav 22 ≡ channels
  pub rate : read_uint32_le wav 24 ≡ sample_rate
  pub byte_rate : read_uint32_le wav 28 ≡ sample_rate * (channels * 2)
  pub block_align : read_uint16_le wav 32 ≡ channels * 2
  pub bits_per_sample : read_uint16_le wav 34 ≡ 16
  pub letters_of_data : letters_at wav 36 ≡ b'd' ∷ b'a' ∷ b't' ∷ b'a' ∷ []
  pub data_size : read_uint32_le wav 40 ≡ length pcm
  pub samples : subarray wav wav_header_size ≡ pcm
  pub bytes : All (λ b. b < 256) pcm → All (λ b. b < 256) wav

-- The sizes that the header has room for.
abbrev pub fits : List ℕ → ℕ → ℕ → Bool
fits pcm sample_rate channels =
    ltb (36 + length pcm) 4294967296
    && (ltb (channels * 2) 65536
        && (ltb sample_rate 4294967296 && ltb (sample_rate * (channels * 2)) 4294967296))

abbrev le16 : ℕ → List ℕ
le16 n = n % 256 ∷ n / 256 ∷ []

abbrev le32 : ℕ → List ℕ
le32 n = n % 256 ∷ n / 256 % 256 ∷ n / 65536 % 256 ∷ n / 16777216 ∷ []

-- The bytes that are written where everything fits.
wav_of : List ℕ → ℕ → ℕ → List ℕ
wav_of pcm r c =
    82
    ∷ 73
    ∷ 70
    ∷ 70
    ∷ (le32 (36 + length pcm)
        ++ 87
          ∷ 65
          ∷ 86
          ∷ 69
          ∷ 102
          ∷ 109
          ∷ 116
          ∷ 32
          ∷ 16
          ∷ 0
          ∷ 0
          ∷ 0
          ∷ 1
          ∷ 0
          ∷ (le16 c
              ++ (le32 r
                  ++ (le32 (r * (c * 2))
                      ++ (le16 (c * 2)
                          ++ 16 ∷ 0 ∷ 100 ∷ 97 ∷ 116 ∷ 97 ∷ (le32 (length pcm) ++ pcm))))))

pcm_to_wav-eq :
    (pcm : List ℕ) (r c : ℕ)
    → pcm_to_wav pcm r c ≡ (if fits pcm r c then some (wav_of pcm r c) else none)
unfolding pcm_to_wav wav_of
pcm_to_wav-eq pcm r c = ground arith

abbrev Byte : ℕ → Type 0
Byte b = b < 256

AreBytes : List ℕ → Type 0
AreBytes xs = All Byte xs

-- The bytes of a chunk, and those that follow.
chunk-AreBytes : (xs ys : List ℕ) → All Byte xs → AreBytes ys → AreBytes (xs ++ ys)
unfolding AreBytes
chunk-AreBytes xs ys h k = All-append Byte xs ys h k

le16-AreBytes : (n : ℕ) → n < 65536 → All Byte (le16 n)
le16-AreBytes n h = omega arith

le32-AreBytes : (n : ℕ) → n < 4294967296 → All Byte (le32 n)
le32-AreBytes n h = omega arith

wav_of-AreBytes :
    (pcm : List ℕ) (r c : ℕ)
    → (36 + length pcm < 4294967296)
      × (c * 2 < 65536)
      × (r < 4294967296)
      × (r * (c * 2) < 4294967296)
    → AreBytes pcm
    → AreBytes (wav_of pcm r c)
unfolding wav_of
wav_of-AreBytes pcm r c small h = chunk-AreBytes (82 ∷ 73 ∷ 70 ∷ 70 ∷ []) _ (omega arith) (
    chunk-AreBytes (le32 (36 + length pcm)) _ (le32-AreBytes _ small.0) (
      chunk-AreBytes (87 ∷ 65 ∷ 86 ∷ 69 ∷ 102 ∷ 109 ∷ 116 ∷ 32 ∷ 16 ∷ 0 ∷ 0 ∷ 0 ∷ 1 ∷ 0 ∷ []) _
        (omega arith)
        (chunk-AreBytes (le16 c) _ (le16-AreBytes c (omega (arith, small.1))) (
          chunk-AreBytes (le32 r) _ (le32-AreBytes r small.2) (
            chunk-AreBytes (le32 (r * (c * 2))) _ (le32-AreBytes (r * (c * 2)) small.3) (
              chunk-AreBytes (le16 (c * 2)) _ (le16-AreBytes (c * 2) small.1) (
                chunk-AreBytes (16 ∷ 0 ∷ 100 ∷ 97 ∷ 116 ∷ 97 ∷ []) _ (omega arith) (
                  chunk-AreBytes (le32 (length pcm)) _
                    (le32-AreBytes (length pcm) (omega (arith, small.0))) h))))))))

module _ (pcm : List ℕ) (r c : ℕ) (fit : fits pcm r c ≡ true) where
  sizes :
      (36 + length pcm < 4294967296)
      × (c * 2 < 65536)
      × (r < 4294967296)
      × (r * (c * 2) < 4294967296)
  sizes = ground arith

  wav_of-IsWav : IsWav pcm r c (wav_of pcm r c)
  unfolding wav_of AreBytes
  wav_of-IsWav =
      let small = sizes in
      record {
        size = omega arith;
        riff = refl;
        riff_size = omega (arith, small.0);
        wave = refl;
        fmt = refl;
        fmt_size = refl;
        audio_format = refl;
        channel_count = omega (arith, small.1);
        rate = omega (arith, small.2);
        byte_rate = omega (arith, small.3);
        block_align = omega (arith, small.1);
        bits_per_sample = refl;
        letters_of_data = refl;
        data_size = omega (arith, small.0);
        samples = refl;
        bytes = λ h. wav_of-AreBytes pcm r c small h;
      }

-- A header is written exactly if the sizes, the rate, the byte rate and the block alignment fit their
-- fields; then a reader of the bytes finds the letters "RIFF", "WAVE", "fmt " and "data" in their
-- places, the size 16 of the format, the format 1, the 16 bits of a sample, and the sizes, the channels,
-- the rates and the samples that were given; and bytes only, if the samples are bytes. Otherwise nothing
-- is returned.
pub pcm_to_wav-IsWav :
    (pcm : List ℕ) (sample_rate channels : ℕ)
    → ((fits pcm sample_rate channels ≡ false) × (pcm_to_wav pcm sample_rate channels ≡ none))
      ⊎ ((fits pcm sample_rate channels ≡ true)
          × ((wav : List ℕ) × (pcm_to_wav pcm sample_rate channels ≡ some wav)
              × IsWav pcm sample_rate channels wav))
pcm_to_wav-IsWav pcm r c = elim (Bool-cases (fits pcm r c)) [
  | inl fit ↦
      let written : pcm_to_wav pcm r c ≡ some (wav_of pcm r c) =
        pcm_to_wav-eq pcm r c ∙ ap (λ b. if b then some (wav_of pcm r c) else none) fit in
      inr (fit, (wav_of pcm r c, written, wav_of-IsWav pcm r c fit))
  | inr big ↦
      inl (big, pcm_to_wav-eq pcm r c ∙ ap (λ b. if b then some (wav_of pcm r c) else none) big)
]
