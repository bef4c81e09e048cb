-- ===== src/Header/Tests.antt =====
-- A header that passes.
use rdrive.Base.{◌*◌, ◌≡◌, refl, codes}
use rdrive.Base.Outcome.{ok}
use rdrive.Header.{UploadHeader, validate_upload}

abbrev header : UploadHeader
header = record {
  file_id = codes "0123456789abcdef0123456789abcdef";
  file_name = codes "notes.txt";
  file_size = 1024 * 1024;
  file_hash = codes "00112233";
  file_key = codes "key";
}

header_passes : validate_upload (1024 * 1024) header ≡ ok tt
unfolding validate_upload
header_passes = refl
