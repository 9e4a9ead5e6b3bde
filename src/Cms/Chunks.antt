-- ===== src/Cms/Chunks.antt =====
-- cms/XmdsFileDownloader: a file is asked for in chunks, and their contents are put together. The answers and
-- CryptoUtils::fromBase64 are parameters. Characters stand for bytes.
pub mod Whole
use xibo_linux.Base.{
  ℕ, zero, suc, ◌+◌, ◌-◌, ◌*◌, ◌/◌, ◌%◌, ◌≤◌, ◌<◌, String, ◌≡◌, refl, sym, ap, subst, ◌∙◌, ◌≢◌, ◌↔◌,
  ◌⊎◌, inl, inr, Bool, true, false, not, ◌&&◌, ◌||◌, Option, none, some, List, [], ◌∷◌, ◌++◌, map,
  append_assoc, append-nil, arith, ltb, leb, ◌==◌, if◌then◌else◌, Bool-cases, Option-cases,
  &&-eq-true, ◌>>=◌, is_some, >>=-eq_of_some, >>=-eq-some, ℤ, pos, negsuc, ◌+ℤ◌, ◌-ℤ◌, ◌≤ℤ◌, ltb_ℤ,
  leb_ℤ, ◌==ℤ◌, ==ℤ_iff, ==ℤ_refl, length, get_elem?, filter, any, all, find, is_empty, filter_idem,
  filter-append, all-filter, filter_of_all, all-append, any-append, length-append, get_elem?_lt,
  str_eq, str_eq_iff, ◌++ₛ◌, contains, to_string, stoi,
}
use xibo_linux.Base.{◌^◌}
use xibo_linux.Cms.{PlayerError, Response, failed, received}

abbrev pub default_chunk_size : ℕ
default_chunk_size = 524288

-- getFile or getDependency, with the id, the type, the offset and the size that are asked for.
pub data ChunkRequest : Type 0 where
  get_dependency get_file : String → String → ℕ → ℕ → ChunkRequest

abbrev chunk_request : Bool → String → String → ℕ → ℕ → ChunkRequest
chunk_request true id kind offset size = get_dependency kind id offset size
chunk_request false id kind offset size = get_file id kind offset size

-- The size of the chunk at an offset; the sums of size_t wrap around.
unfoldable pub chunk_size : ℕ → ℕ → ℕ
chunk_size file_size offset =
    if leb file_size ((offset + default_chunk_size) % 2 ^ 64)
    then file_size - offset
    else default_chunk_size

-- The loop of download, from an offset: the offset and the size of each chunk. The fuel bounds the number of
-- rounds; `none` is a loop that has not ended by then.
unfoldable pub chunks_from : ℕ → ℕ → ℕ → Option (List (ℕ × ℕ))
unfolding chunk_size
chunks_from zero file_size offset = if ltb offset file_size then none else some []
chunks_from (suc fuel) file_size offset =
    let size = chunk_size file_size offset in
    let rest = chunks_from fuel file_size ((offset + size) % 2 ^ 64) in
    if ltb offset file_size then (do chunks ← rest; some ((offset, size) ∷ chunks)) else some []

-- A file of `n` bytes has at most `n` chunks.
unfoldable pub chunks : ℕ → Option (List (ℕ × ℕ))
unfolding chunks_from
chunks file_size = chunks_from file_size file_size 0

unfoldable pub requests : String → String → Bool → List (ℕ × ℕ) → List ChunkRequest
requests id kind is_dependency [] = []
requests id kind is_dependency ((offset, size) ∷ rest) =
    chunk_request is_dependency id kind offset size ∷ requests id kind is_dependency rest

-- combineAllChunks, from the content so far.
unfoldable pub combine_all_chunks :
    (String → String) → String → List (Response String) → Response String
combine_all_chunks from_base64 content [] = received content
combine_all_chunks from_base64 content (failed error ∷ results) = failed error
combine_all_chunks from_base64 content (received chunk ∷ results) =
    combine_all_chunks from_base64 (content ++ₛ from_base64 chunk) results

-- download, where `answer` is what the CMS answers to each request.
unfoldable pub download :
    (String → String)
    → (ChunkRequest → Response String)
    → String
    → String
    → ℕ
    → Bool
    → Option (Response String)
unfolding chunks requests combine_all_chunks
download from_base64 answer id kind file_size is_dependency = do
  parts ← chunks file_size
  some (combine_all_chunks from_base64 "" (map answer (requests id kind is_dependency parts)))
