-- ===== src/Header/Validation.antt =====
-- Which headers pass.
use rdrive.Base.{ℕ, ◌≤◌, ◌<◌, ◌≡◌, ◌↔◌, refl, false, [], ◌∷◌, arith, Bytes, length, is_empty}
use rdrive.Base.Outcome.{ok}
use rdrive.Header.{UploadHeader, min_file_size, validate_upload, validate_download}

is_empty-false : (s : Bytes) → 0 < length s → is_empty s ≡ false
is_empty-false [] h = absurd (omega arith)
is_empty-false (x ∷ s) h = refl

length_pos : (s : Bytes) → is_empty s ≡ false → 0 < length s
length_pos [] h = absurd (ground arith)
length_pos (x ∷ s) h = omega arith

-- An upload header passes exactly when its id has 32 to 256 bytes, its name and hash are not empty, its
-- size lies between 1 MiB and the limit, and its key has 1 to 512 bytes.
validate_upload_iff :
    (max_file_size : ℕ) (h : UploadHeader)
    → (validate_upload max_file_size h ≡ ok tt) ↔ (
        (32 ≤ length h.file_id)
        × (length h.file_id ≤ 256)
        × (0 < length h.file_name)
        × (min_file_size ≤ h.file_size)
        × (h.file_size ≤ max_file_size)
        × (0 < length h.file_hash)
        × (0 < length h.file_key)
        × (length h.file_key ≤ 512))
unfolding validate_upload
validate_upload_iff mx h = (
  λ e. ground (arith, length_pos h.file_name, length_pos h.file_hash, length_pos h.file_key),
  λ k. ground (
    arith,
    is_empty-false h.file_id,
    is_empty-false h.file_name,
    is_empty-false h.file_hash,
    is_empty-false h.file_key,
  ),
)

-- Whoever may upload under an id and a key may ask for the download under them.
pub validate_download_of_upload :
    (max_file_size : ℕ) (h : UploadHeader)
    → validate_upload max_file_size h ≡ ok tt
    → validate_download (record { file_id = h.file_id; file_key = h.file_key }) ≡ ok tt
unfolding validate_upload validate_download
validate_download_of_upload mx h e = ground arith
