-- ===== src/Tests/Recordings.antt =====
-- The header of a short recording.
use comm_care.Prelude.{ℕ, ◌≡◌, refl, ◌⊎◌, true, false, none, some, List, [], ◌∷◌}
use comm_care.Wav.{pcm_to_wav}
use comm_care.Wav.RoundTrip.{fits, IsWav, pcm_to_wav-IsWav}

abbrev four_samples : List ℕ
four_samples = 1 ∷ 0 ∷ 2 ∷ 0 ∷ 3 ∷ 0 ∷ 4 ∷ 0 ∷ []

pcm_to_wav-IsWav_example :
    ((fits four_samples 8000 1 ≡ false) × (pcm_to_wav four_samples 8000 1 ≡ none))
    ⊎ ((fits four_samples 8000 1 ≡ true)
        × ((wav : List ℕ) × (pcm_to_wav four_samples 8000 1 ≡ some wav)
            × IsWav four_samples 8000 1 wav))
pcm_to_wav-IsWav_example = pcm_to_wav-IsWav four_samples 8000 1

too_many_channels : pcm_to_wav four_samples 8000 40000 ≡ none
unfolding pcm_to_wav
too_many_channels = refl
