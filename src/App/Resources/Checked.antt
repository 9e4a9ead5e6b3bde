-- ===== src/App/Resources/Checked.antt =====
-- checkResourceDirectory: what is still valid afterwards is on disk as it was cached.
use xibo_linux.Base.{
  String, ◌≡◌, refl, subst, ◌⊎◌, inl, inr, true, false, Option, none, some, List, [], ◌∷◌, arith,
  Bool-cases, any, str_eq, str_eq_iff,
}
use xibo_linux.FileCache.{
  Entries, valid, cached_hash, uses_timestamp_validation, cached_files, mark_as_invalid,
}
use xibo_linux.FileCache.Lookup.{valid-mark_self}
use xibo_linux.FileCache.Marked.{find-mark, valid-mark}
use xibo_linux.App.Resources.{
  Directory, check_content, check_file, check_files, check_resource_directory,
}

module _ (hash_of : String → String) (directory : Directory) where
  -- The file is on disk, and it is validated by a time or cached under the hash of its content.
  abbrev pub IsIntact : String → Entries → Type 0
  IsIntact file entries =
      (content : String) × (directory file ≡ some content)
      × ((uses_timestamp_validation file entries ≡ true)
          ⊎ (cached_hash file (hash_of content) entries ≡ true))

  abbrev IsChecked : String → Entries → Type 0
  IsChecked file entries = valid file entries ≡ true → IsIntact file entries

  mark-IsChecked :
      (marked file : String) (entries : Entries)
      → IsChecked file entries
      → IsChecked file (mark_as_invalid marked entries)
  unfolding uses_timestamp_validation cached_hash
  mark-IsChecked marked file entries checked is_valid =
      let (content, stored, intact) = checked (valid-mark marked file entries is_valid) in
      let same = find-mark marked file entries is_valid in (content, stored, rw same intact)

  invalid-IsChecked :
      (file : String) (entries : Entries) → valid file entries ≡ false → IsChecked file entries
  invalid-IsChecked file entries h is_valid = absurd (ground (arith, h, is_valid))

  check_content-keeps :
      (checked file : String) (content : Option String) (entries : Entries)
      → IsChecked file entries
      → IsChecked file (check_content hash_of directory checked content entries)
  unfolding check_content
  check_content-keeps checked file none entries h = mark-IsChecked checked file entries h
  check_content-keeps checked file (some content) entries h =
      elim (Bool-cases (uses_timestamp_validation checked entries)) [
        | inl by_time ↦ rw by_time h
        | inr by_hash ↦ elim (Bool-cases (cached_hash checked (hash_of content) entries)) [
          | inl same ↦ rw (by_hash, same) h
          | inr differs ↦ rw (by_hash, differs) (mark-IsChecked checked file entries h)
        ]
      ]

  check_content-checks :
      (file : String) (content : Option String) (entries : Entries)
      → directory file ≡ content
      → IsChecked file (check_content hash_of directory file content entries)
  unfolding check_content
  check_content-checks file none entries e =
      invalid-IsChecked file (mark_as_invalid file entries) (valid-mark_self file entries)
  check_content-checks file (some content) entries e =
      elim (Bool-cases (uses_timestamp_validation file entries)) [
        | inl by_time ↦ rw by_time (λ is_valid. (content, e, inl by_time))
        | inr by_hash ↦ elim (Bool-cases (cached_hash file (hash_of content) entries)) [
          | inl same ↦ rw (by_hash, same) (λ is_valid. (content, e, inr same))
          | inr differs ↦
              rw (by_hash, differs)
                (invalid-IsChecked file (mark_as_invalid file entries)
                  (valid-mark_self file entries))
        ]
      ]

  check_file-keeps :
      (checked file : String) (entries : Entries)
      → IsChecked file entries
      → IsChecked file (check_file hash_of directory checked entries)
  unfolding check_file
  check_file-keeps checked file entries h = elim (Bool-cases (valid checked entries)) [
    | inl is_valid ↦ rw is_valid (check_content-keeps checked file (directory checked) entries h)
    | inr is_invalid ↦ rw is_invalid h
  ]

  check_file-checks :
      (file : String) (entries : Entries)
      → IsChecked file (check_file hash_of directory file entries)
  unfolding check_file
  check_file-checks file entries = elim (Bool-cases (valid file entries)) [
    | inl is_valid ↦ rw is_valid (check_content-checks file (directory file) entries refl)
    | inr is_invalid ↦ rw is_invalid (invalid-IsChecked file entries is_invalid)
  ]

  check_files-keeps :
      (files : List String) (file : String) (entries : Entries)
      → IsChecked file entries
      → IsChecked file (check_files hash_of directory files entries)
  unfolding check_files
  check_files-keeps [] file entries h = h
  check_files-keeps (first ∷ files) file entries h =
      check_files-keeps files file (check_file hash_of directory first entries)
        (check_file-keeps first file entries h)

  check_files-checks :
      (files : List String) (file : String) (entries : Entries)
      → any (str_eq file) files ≡ true
      → IsChecked file (check_files hash_of directory files entries)
  unfolding check_files
  check_files-checks [] file entries h = absurd (ground arith)
  check_files-checks (first ∷ files) file entries h = elim (Bool-cases (str_eq file first)) [
    | inl same ↦ check_files-keeps files file (check_file hash_of directory first entries) (
        subst (λ f. IsChecked file (check_file hash_of directory f entries))
          ((str_eq_iff file first).0 same) (check_file-checks file entries))
    | inr other ↦
        check_files-checks files file (check_file hash_of directory first entries)
          (ground (arith, h, other))
  ]

  -- After checkResourceDirectory each file that was listed and is still valid is on disk, and it is validated
  -- by a time or cached under the hash of what is on disk.
  pub check_resource_directory-IsIntact :
      (file : String) (entries : Entries)
      → any (str_eq file) (cached_files entries) ≡ true
      → valid file (check_resource_directory hash_of directory entries) ≡ true
      → IsIntact file (check_resource_directory hash_of directory entries)
  unfolding check_resource_directory
  check_resource_directory-IsIntact file entries listed =
      check_files-checks (cached_files entries) file entries listed
