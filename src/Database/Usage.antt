-- ===== src/Database/Usage.antt =====
-- What the usage query counts.
use synapse_media_worker.Base.{ℕ, ◌≤◌, List, [], ◌∷◌, Bytes, arith}
use synapse_media_worker.Database.{LocalMedia, counted, uploaded_size_for_user}

counted_antitone :
    (user : Bytes) (s t : ℕ) (row : LocalMedia) → s ≤ t → counted user t row ≤ counted user s row
unfolding counted
counted_antitone user s t row h = ground arith

-- A later start never counts more.
pub uploaded_size_for_user_antitone :
    (rows : List LocalMedia) (user : Bytes) (s t : ℕ)
    → s ≤ t
    → uploaded_size_for_user rows user t ≤ uploaded_size_for_user rows user s
unfolding uploaded_size_for_user
uploaded_size_for_user_antitone [] user s t h = omega arith
uploaded_size_for_user_antitone (row ∷ rows) user s t h =
    omega (arith, counted_antitone user s t row h, uploaded_size_for_user_antitone rows user s t h)
