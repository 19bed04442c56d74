-- ===== src/Uploads/Parts.antt =====
-- The parts of a multipart upload: pickUploadMode of internal/usecase/upload_session.go, and
-- normalizeCompletedParts and normalizeUploadClientOperationID of upload_session_completion.go.
pub mod Laws
use omniflow_go.Prelude.{
  ℕ, zero, suc, ◌+◌, ◌-◌, ◌*◌, ◌/◌, ◌%◌, Bool, true, false, ◌&&◌, ◌||◌, not, List, [], ◌∷◌, ◌++◌,
  ◌==◌, ltb, leb, if◌then◌else◌,
}
use omniflow_go.Text.{Text, codes, is_empty, trim_space}
use omniflow_go.Result.{Error, Result, ok, err, guard, ◌>>=◌, ◌>>◌, invalid_argument}
use omniflow_go.Uploads.{Mode, single, multipart}

abbrev pub direct_upload_single_threshold_bytes : ℕ
direct_upload_single_threshold_bytes = 16 * 1024 * 1024

abbrev pub direct_upload_default_part_size_bytes : ℕ
direct_upload_default_part_size_bytes = 16 * 1024 * 1024

-- The mode, the size of a part and the number of parts of a file; Init has checked that the size is
-- positive.
-- An int64 as the bits of its 64: the quotient by a positive one, which Go rounds towards 0.
abbrev pub div_int64 : ℕ → ℕ → ℕ
div_int64 a b =
    if ltb a 9223372036854775808
    then a / b
    else (18446744073709551616 - (18446744073709551616 - a) / b) % 18446744073709551616

unfoldable pub pick_upload_mode : ℕ → ℕ → Mode × ℕ × ℕ
pick_upload_mode file_size cfg_chunk_size =
    if leb file_size direct_upload_single_threshold_bytes
    then (single, file_size, 1)
    else (let part_size =
          if ltb cfg_chunk_size direct_upload_default_part_size_bytes
          then direct_upload_default_part_size_bytes
          else cfg_chunk_size in
        (
          multipart,
          part_size,
          div_int64 ((file_size + part_size - 1) % 18446744073709551616) part_size,
        ))

pub record CompletedPart : Type 0 where
  pub part_number : ℕ
  pub e_tag : Text

abbrev pub has_number : ℕ → List ℕ → Bool
has_number n [] = false
has_number n (m ∷ ms) = n == m || has_number n ms

-- The loop over the parts, with the numbers that it has seen.
unfoldable pub normalize_loop : List ℕ → List CompletedPart → Result (List CompletedPart)
normalize_loop seen [] = ok []
normalize_loop seen (p ∷ ps) = do
  guard (not (ltb p.part_number 1 || is_empty (trim_space p.e_tag))) invalid_argument
  guard (not (has_number p.part_number seen)) invalid_argument
  rest ← normalize_loop (p.part_number ∷ seen) ps
  ok (record p { e_tag = trim_space p.e_tag } ∷ rest)

-- sort.Slice by the number; the numbers differ, so that any sort gives this result.
unfoldable pub insert_part : CompletedPart → List CompletedPart → List CompletedPart
insert_part p [] = p ∷ []
insert_part p (q ∷ qs) =
    if ltb q.part_number p.part_number then q ∷ insert_part p qs else p ∷ q ∷ qs

unfoldable pub sort_parts : List CompletedPart → List CompletedPart
unfolding insert_part
sort_parts [] = []
sort_parts (p ∷ ps) = insert_part p (sort_parts ps)

unfoldable pub normalize_completed_parts : List CompletedPart → Result (List CompletedPart)
unfolding normalize_loop sort_parts
normalize_completed_parts [] = err invalid_argument
normalize_completed_parts (p ∷ ps) = do parts ← normalize_loop [] (p ∷ ps); ok (sort_parts parts)
