-- ===== src/Cms/Chunks/Whole.antt =====
-- The chunks of a file cover it without gaps, and their contents make up the file.
use xibo_linux.Base.{
  ℕ, zero, suc, ◌+◌, ◌%◌, ◌≤◌, ◌<◌, String, ◌≡◌, refl, sym, ap, ◌∙◌, inl, inr, Bool, true, false,
  some, List, [], ◌∷◌, map, arith, ltb, leb, Bool-cases, ◌++ₛ◌,
}
use text.Mathlib.TextLemmas.{
  append_assoc as text_append_assoc, append-nil as text_append-nil, nil-append, cons-append,
}
use xibo_linux.Base.Scan.{substr_from, substr_to, size}
use xibo_linux.Cms.{Response, received}
use xibo_linux.Cms.Chunks.{
  default_chunk_size, ChunkRequest, chunk_request, chunk_size, chunks_from, chunks, requests,
  combine_all_chunks, download,
}

-- Chunks that follow each other from an offset to the end of a file, none of them empty or too large.
abbrev pub Covers : ℕ → ℕ → List (ℕ × ℕ) → Type 0
Covers file_size offset [] = offset ≡ file_size
Covers file_size offset ((start, size) ∷ rest) =
    (start ≡ offset)
    × (0 < size)
    × (size ≤ default_chunk_size)
    × Covers file_size (offset + size) rest

chunk_size_lem :
    (file_size offset : ℕ)
    → file_size + default_chunk_size < 18446744073709551616
    → offset < file_size
    → (0 < chunk_size file_size offset)
      × (chunk_size file_size offset ≤ default_chunk_size)
      × (offset + chunk_size file_size offset ≤ file_size)
unfolding chunk_size
chunk_size_lem file_size offset small lt =
    let same : (offset + default_chunk_size) % 18446744073709551616 ≡ offset + default_chunk_size =
      omega arith in
    elim (Bool-cases (leb file_size (offset + default_chunk_size))) [
      | inl last ↦ rw (same, last) (omega arith, ground arith, omega arith)
      | inr more ↦ rw (same, more) (omega arith, omega arith, ground arith)
    ]

ltb-true : (a b : ℕ) → a < b → ltb a b ≡ true
ltb-true a b h = ground arith

ltb-false : (a b : ℕ) → b ≤ a → ltb a b ≡ false
ltb-false a b h = ground arith

chunks_from_step :
    (fuel file_size offset : ℕ) (rest : List (ℕ × ℕ))
    → ltb offset file_size ≡ true
    → (offset + chunk_size file_size offset) % 18446744073709551616
      ≡ offset + chunk_size file_size offset
    → chunks_from fuel file_size (offset + chunk_size file_size offset) ≡ some rest
    → chunks_from (suc fuel) file_size offset ≡ some ((offset, chunk_size file_size offset) ∷ rest)
unfolding chunks_from
chunks_from_step fuel file_size offset rest lt next found = rw (lt, next, found) refl

chunks_from_lem :
    (fuel file_size offset : ℕ)
    → file_size + default_chunk_size < 18446744073709551616
    → offset ≤ file_size
    → file_size ≤ offset + fuel
    → (parts : List (ℕ × ℕ)) × (chunks_from fuel file_size offset ≡ some parts)
      × Covers file_size offset parts
unfolding chunks_from
chunks_from_lem zero file_size offset small le enough =
    ([], rw (ltb-false offset file_size (omega arith)) refl, omega arith)
chunks_from_lem (suc fuel) file_size offset small le enough =
    elim (Bool-cases (ltb offset file_size)) [
      | inr over ↦ ([], rw over refl, ground (arith, over))
      | inl lt ↦
          let (positive, bounded, within) =
            chunk_size_lem file_size offset small (ground (arith, lt)) in
          let next : (offset + chunk_size file_size offset) % 18446744073709551616
              ≡ offset + chunk_size file_size offset =
            omega arith in
          let (rest, found, covers) =
            chunks_from_lem fuel file_size (offset + chunk_size file_size offset) small within
              (omega arith) in
          (
            (offset, chunk_size file_size offset) ∷ rest,
            chunks_from_step fuel file_size offset rest lt next found,
            (refl, positive, bounded, covers),
          )
    ]

-- The loop of download ends, and the chunks that it asks for follow each other from the start of the file
-- to its end, none of them empty or of more than 524288 bytes, for a file whose size leaves room for one
-- more chunk in a size_t.
pub chunks-Covers :
    (file_size : ℕ)
    → file_size + default_chunk_size < 18446744073709551616
    → (parts : List (ℕ × ℕ)) × (chunks file_size ≡ some parts) × Covers file_size 0 parts
unfolding chunks
chunks-Covers file_size small =
    chunks_from_lem file_size file_size 0 small (omega arith) (omega arith)

cut : (n : ℕ) (s : String) → substr_to n s ++ₛ substr_from n s ≡ s
unfolding substr_to substr_from
cut zero s = nil-append s
cut (suc n) String.[] = nil-append ""
cut (suc n) (String.◌∷◌ c s) = rw (cons-append, cut n s) refl

substr_from_empty : (n : ℕ) → substr_from n "" ≡ ""
unfolding substr_from
substr_from_empty zero = refl
substr_from_empty (suc n) = refl

substr_from-add :
    (n a b : ℕ) (s : String) → n ≡ a + b → substr_from n s ≡ substr_from b (substr_from a s)
unfolding substr_from
substr_from-add n zero b s e = ap (λ k. substr_from k s) (e ∙ omega arith)
substr_from-add zero (suc a) b s e = absurd (omega arith)
substr_from-add (suc n) (suc a) b String.[] e = sym (substr_from_empty b)
substr_from-add (suc n) (suc a) b (String.◌∷◌ c s) e = substr_from-add n a b s (omega arith)

rejoin :
    (offset part : ℕ) (so_far s : String)
    → (so_far ++ₛ substr_to part (substr_from offset s)) ++ₛ substr_from (offset + part) s
      ≡ so_far ++ₛ substr_from offset s
rejoin offset part so_far s =
    rw
      (
        substr_from-add (offset + part) offset part s refl,
        text_append_assoc so_far (substr_to part (substr_from offset s))
            (substr_from part (substr_from offset s)),
        cut part (substr_from offset s),
      )
      refl

substr_from-size : (s : String) → substr_from (size s) s ≡ ""
unfolding substr_from size
substr_from-size String.[] = refl
substr_from-size (String.◌∷◌ c s) = substr_from-size s

module _ (from_base64 : String → String) (answer : ChunkRequest → Response String)
    (id kind : String) (is_dependency : Bool) (content : String) where
  -- The CMS answers each request with the encoded part of the content that it asks for.
  abbrev pub IsServed : Type 0
  IsServed =
      (offset size : ℕ)
      → (chunk : String) × (answer (chunk_request is_dependency id kind offset size)
          ≡ received chunk)
        × (from_base64 chunk ≡ substr_to size (substr_from offset content))

  combine_lem :
      (parts : List (ℕ × ℕ)) (offset : ℕ) (so_far : String)
      → IsServed
      → Covers (size content) offset parts
      → combine_all_chunks from_base64 so_far (map answer (requests id kind is_dependency parts))
        ≡ received (so_far ++ₛ substr_from offset content)
  unfolding combine_all_chunks requests
  combine_lem [] offset so_far served covers =
      rw (covers, substr_from-size content, text_append-nil) refl
  combine_lem ((start, chunk_length) ∷ rest) offset so_far served (same, _, _, covers) =
      let (chunk, answered, decoded) = served start chunk_length in
      rw (answered, decoded, same)
        (combine_lem rest (offset + chunk_length)
            (so_far ++ₛ substr_to chunk_length (substr_from offset content)) served covers
          ∙ ap received (rejoin offset chunk_length so_far content))

  -- If the CMS answers each request with the part of a content that it asks for, the download of the file
  -- with the size of the content ends with this content, when the size leaves room for one more chunk in
  -- a size_t.
  pub download_whole :
      size content + default_chunk_size < 18446744073709551616
      → IsServed
      → download from_base64 answer id kind (size content) is_dependency ≡ some (received content)
  unfolding download substr_from
  download_whole small served =
      let (parts, found, covers) = chunks-Covers (size content) small in
      rw (found, combine_lem parts 0 "" served covers)
        (ap (λ t. some (received t)) (nil-append content))
