-- ===== src/FileCache/Lookup.antt =====
-- A file that was saved is found as it was saved, and a change of one file leaves the others alone.
use xibo_linux.Base.{
  ◌+◌, String, ◌≡◌, refl, ap, inl, inr, Bool, true, false, not, none, some, List, [], ◌∷◌, map,
  arith, Bool-cases, is_some, length, filter, str_eq, str_eq_iff,
}
use xibo_linux.FileCache.{
  FileNode, Entries, file_node_name, text_or_empty, is_node_of, find_file_node, upsert_file_node,
  node_valid, valid, node_updated, node_has_hash, cached_hash, listed_files, cached_files,
  invalid_files, mark_as_invalid, add_hash_to_cache, save_file, uses_timestamp_validation,
}

pub find-upsert_self :
    (filename : String) (new : FileNode) (entries : Entries)
    → new.name ≡ some filename
    → find_file_node filename (upsert_file_node filename new entries) ≡ some new
unfolding find_file_node upsert_file_node is_node_of
find-upsert_self filename new [] h =
    ground (arith, str_eq_iff filename filename, str_eq_iff file_node_name file_node_name)
find-upsert_self filename new ((entry, node) ∷ entries) h =
    ground (arith, str_eq_iff filename filename, find-upsert_self filename new entries)

-- Where no file is named as the entries are, an entry with the node of one file is not that of another.
other_node :
    (filename other entry : String) (node : FileNode)
    → str_eq filename other ≡ false
    → str_eq file_node_name filename ≡ false
    → str_eq file_node_name other ≡ false
    → is_node_of filename entry node ≡ true
    → is_node_of other entry node ≡ false
unfolding is_node_of
other_node filename other entry node ne f g h = ground (
  arith,
  str_eq_iff entry file_node_name,
  str_eq_iff entry filename,
  str_eq_iff entry other,
  str_eq_iff file_node_name filename,
  str_eq_iff file_node_name other,
  str_eq_iff filename other,
  str_eq_iff (text_or_empty node.name) filename,
  str_eq_iff (text_or_empty node.name) other,
)

renamed_node :
    (filename entry : String) (node new : FileNode)
    → new.name ≡ some filename
    → is_node_of filename entry node ≡ true
    → is_node_of filename entry new ≡ true
unfolding is_node_of
renamed_node filename entry node new h found = ground (arith, str_eq_iff filename filename)

appended_node :
    (filename : String) (new : FileNode)
    → new.name ≡ some filename
    → is_node_of filename file_node_name new ≡ true
unfolding is_node_of
appended_node filename new h =
    ground (arith, str_eq_iff filename filename, str_eq_iff file_node_name file_node_name)

find-upsert_other :
    (filename other : String) (new : FileNode) (entries : Entries)
    → new.name ≡ some filename
    → str_eq filename other ≡ false
    → str_eq file_node_name filename ≡ false
    → str_eq file_node_name other ≡ false
    → find_file_node other (upsert_file_node filename new entries) ≡ find_file_node other entries
unfolding find_file_node upsert_file_node
find-upsert_other filename other new [] h ne f g =
    rw (other_node filename other file_node_name new ne f g (appended_node filename new h)) refl
find-upsert_other filename other new ((entry, node) ∷ entries) h ne f g =
    elim (Bool-cases (is_node_of filename entry node)) [
      | inl found ↦
          rw
            (
              found,
              other_node filename other entry node ne f g found,
              other_node filename other entry new ne f g
                  (renamed_node filename entry node new h found),
            )
            refl
      | inr missing ↦ rw (missing, find-upsert_other filename other new entries h ne f g) refl
    ]

pub mark_keeps_name :
    (filename entry : String) (node : FileNode)
    → is_node_of filename entry (record node { valid = some false })
      ≡ is_node_of filename entry node
unfolding is_node_of
mark_keeps_name filename entry node = refl

pub valid-mark_self :
    (filename : String) (entries : Entries)
    → valid filename (mark_as_invalid filename entries) ≡ false
unfolding valid find_file_node mark_as_invalid
valid-mark_self filename [] = refl
valid-mark_self filename ((entry, node) ∷ entries) =
    elim (Bool-cases (is_node_of filename entry node)) [
      | inl found ↦ rw found (ground (arith, found, mark_keeps_name filename entry node))
      | inr missing ↦ ground (arith, missing, valid-mark_self filename entries)
    ]

find-mark_other :
    (filename other : String) (entries : Entries)
    → str_eq filename other ≡ false
    → str_eq file_node_name filename ≡ false
    → str_eq file_node_name other ≡ false
    → find_file_node other (mark_as_invalid filename entries) ≡ find_file_node other entries
unfolding find_file_node mark_as_invalid
find-mark_other filename other [] ne f g = refl
find-mark_other filename other ((entry, node) ∷ entries) ne f g =
    elim (Bool-cases (is_node_of filename entry node)) [
      | inl found ↦ rw (found, other_node filename other entry node ne f g found) refl
      | inr missing ↦ rw (missing, find-mark_other filename other entries ne f g) refl
    ]

-- After a file was saved with a content and the hash that is expected, it is valid exactly if the hash of
-- the content is the one expected, cached under a hash exactly if that is the content's, and not
-- validated by a time; for another file all three answers are what they were. Neither file is called
-- "file", the name of the entries.
pub save_file_lem :
    (hash_of : String → String) (filename content target other hash : String) (entries : Entries)
    → str_eq filename other ≡ false
    → str_eq file_node_name filename ≡ false
    → str_eq file_node_name other ≡ false
    → (valid filename (save_file hash_of filename content target entries)
        ≡ str_eq (hash_of content) target)
      × (cached_hash filename hash (save_file hash_of filename content target entries)
          ≡ str_eq (hash_of content) hash)
      × (uses_timestamp_validation filename (save_file hash_of filename content target entries)
          ≡ false)
      × (valid other (save_file hash_of filename content target entries) ≡ valid other entries)
      × (cached_hash other hash (save_file hash_of filename content target entries)
          ≡ cached_hash other hash entries)
      × (uses_timestamp_validation other (save_file hash_of filename content target entries)
          ≡ uses_timestamp_validation other entries)
unfolding save_file add_hash_to_cache valid cached_hash uses_timestamp_validation
save_file_lem hash_of filename content target other hash entries ne f g =
    let saved : FileNode = record {
      name = some filename;
      md5 = some (hash_of content);
      updated = none;
      valid = some (str_eq (hash_of content) target);
    } in
    let here = find-upsert_self filename saved entries refl in
    let there = find-upsert_other filename other saved entries refl ne f g in
    (
      ap node_valid here,
      ap (node_has_hash hash) here,
      ap (λ node. is_some (node_updated node)) here,
      ap node_valid there,
      ap (node_has_hash hash) there,
      ap (λ node. is_some (node_updated node)) there,
    )

-- After markAsInvalid a file is not valid, and whether another file is valid or cached under a hash is what
-- it was. Neither file is called "file", the name of the entries.
pub mark_as_invalid_lem :
    (filename other hash : String) (entries : Entries)
    → str_eq filename other ≡ false
    → str_eq file_node_name filename ≡ false
    → str_eq file_node_name other ≡ false
    → (valid filename (mark_as_invalid filename entries) ≡ false)
      × (valid other (mark_as_invalid filename entries) ≡ valid other entries)
      × (cached_hash other hash (mark_as_invalid filename entries) ≡ cached_hash other hash entries)
unfolding valid cached_hash
mark_as_invalid_lem filename other hash entries ne f g =
    let there = find-mark_other filename other entries ne f g in
    (valid-mark_self filename entries, ap node_valid there, ap (node_has_hash hash) there)

-- cachedFiles lists as many files as invalidFiles and the files that are listed as valid together.
pub length-invalid_files :
    (entries : Entries)
    → length (invalid_files entries) + length (filter (λ file. file.1) (listed_files entries))
      ≡ length (cached_files entries)
unfolding invalid_files cached_files
length-invalid_files entries = split (listed_files entries)
  where
    split :
        (files : List (String × Bool))
        → length (map (λ file. file.0) (filter (λ file. not file.1) files))
            + length (filter (λ file. file.1) files)
          ≡ length (map (λ file. file.0) files)
    split [] = refl
    split (file ∷ files) = ground (arith, split files)
