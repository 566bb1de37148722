-- ===== src/Database/Tests.antt =====
-- A table of two rows.
use synapse_media_worker.Base.{◌≡◌, refl, bytes, List, [], ◌∷◌, true, false, str_eq, some, none}
use synapse_media_worker.Database.{
  is_pending_of, Completion, completed, complete_local_media, get_local_media, LocalMedia,
  completed_row, pending_row, count_pending_media, uploaded_size_for_user,
}
use synapse_media_worker.Database.Writes.{IsKeyed}
use synapse_media_worker.Database.Writes

abbrev rows : List LocalMedia
rows =
    completed_row (bytes "aaaaaa") (bytes "image/png") [] 100 (bytes "@a:b") 5000 true [] []
    ∷ pending_row (bytes "bbbbbb") 6000 (bytes "@a:b") true
    ∷ []

pending_test : count_pending_media rows (bytes "@a:b") 5500 ≡ (1, 6000)
unfolding count_pending_media is_pending_of str_eq completed_row pending_row
pending_test = refl

usage_test : uploaded_size_for_user rows (bytes "@a:b") 4000 ≡ 100
unfolding uploaded_size_for_user str_eq completed_row pending_row
usage_test = refl

abbrev first : Completion
first = record {
  media_type = bytes "image/png";
  upload_name = [];
  length = 3;
  sha256 = bytes "ab";
  quarantined_by = [];
}

abbrev second : Completion
second = record {
  media_type = bytes "image/jpeg";
  upload_name = [];
  length = 4;
  sha256 = bytes "cd";
  quarantined_by = [];
}

abbrev pending : LocalMedia
pending = pending_row (bytes "bbbbbb") 6000 (bytes "@a:b") true

keyed : IsKeyed rows
unfolding get_local_media str_eq completed_row pending_row
keyed = (refl, (refl, tt))

pending_found : get_local_media rows (bytes "bbbbbb") ≡ some pending
unfolding get_local_media str_eq completed_row pending_row
pending_found = refl

no_length : pending.length ≡ none
unfolding pending_row
no_length = refl

complete_local_media_once_example :
    ((complete_local_media rows (bytes "bbbbbb") first).1 ≡ true)
    × (get_local_media (complete_local_media rows (bytes "bbbbbb") first).0 (bytes "bbbbbb")
        ≡ some (completed first pending))
    × (complete_local_media
          (complete_local_media rows (bytes "bbbbbb") first).0
          (bytes "bbbbbb")
          second
        ≡ ((complete_local_media rows (bytes "bbbbbb") first).0, false))
complete_local_media_once_example =
    Writes.complete_local_media_once rows (bytes "bbbbbb") first second pending keyed pending_found
      no_length
