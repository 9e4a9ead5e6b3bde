-- ===== src/App/Resources.antt =====
-- XiboApp.cpp: checkResourceDirectory and purgeAllCachedResources. The resource directory is a function from
-- the name of a file to its content; `is_regular`, `is_removable` and `hash_of` are what FileSystem and
-- Md5Hash say of it.
pub mod Checked
pub mod Purged
use xibo_linux.Base.{
  ℕ, zero, suc, ◌+◌, ◌-◌, ◌*◌, ◌/◌, ◌%◌, ◌≤◌, ◌<◌, String, ◌≡◌, refl, sym, ap, subst, ◌∙◌, ◌≢◌, ◌↔◌,
  ◌⊎◌, inl, inr, Bool, true, false, not, ◌&&◌, ◌||◌, Option, none, some, List, [], ◌∷◌, ◌++◌, map,
  append_assoc, append-nil, arith, ltb, leb, ◌==◌, if◌then◌else◌, Bool-cases, Option-cases,
  &&-eq-true, ◌>>=◌, is_some, >>=-eq_of_some, >>=-eq-some, ℤ, pos, negsuc, ◌+ℤ◌, ◌-ℤ◌, ◌≤ℤ◌, ltb_ℤ,
  leb_ℤ, ◌==ℤ◌, ==ℤ_iff, ==ℤ_refl, length, get_elem?, filter, any, all, find, is_empty, filter_idem,
  filter-append, all-filter, filter_of_all, all-append, any-append, length-append, get_elem?_lt,
  str_eq, str_eq_iff, ◌++ₛ◌, contains, to_string, stoi,
}
use xibo_linux.FileCache.{
  Entries, valid, cached_hash, uses_timestamp_validation, cached_files, mark_as_invalid,
}

abbrev pub Directory : Type 0
Directory = String → Option String

module _ (hash_of : String → String) (directory : Directory) where
  check_content : String → Option String → Entries → Entries
  unfolding uses_timestamp_validation cached_hash mark_as_invalid
  check_content file none entries = mark_as_invalid file entries
  check_content file (some content) entries =
      if uses_timestamp_validation file entries
      then entries
      else if not (cached_hash file (hash_of content) entries)
      then mark_as_invalid file entries
      else entries

  -- One round of the loop of checkResourceDirectory.
  unfoldable pub check_file : String → Entries → Entries
  unfolding check_content valid
  check_file file entries =
      if not (valid file entries) then entries else check_content file (directory file) entries

  unfoldable pub check_files : List String → Entries → Entries
  unfolding check_file
  check_files [] entries = entries
  check_files (file ∷ files) entries = check_files files (check_file file entries)

  unfoldable pub check_resource_directory : Entries → Entries
  unfolding check_files cached_files
  check_resource_directory entries = check_files (cached_files entries) entries

module _ (is_regular is_removable : String → Bool) where
  abbrev without : String → Directory → Directory
  without file directory name = if str_eq name file then none else directory name

  -- One round of the loop of purgeAllCachedResources.
  unfoldable pub purge_file : String → Directory × Entries → Directory × Entries
  purge_file file (directory, entries) = (
    if is_some (directory file) && is_regular file && is_removable file
        then without file directory
        else directory,
    mark_as_invalid file entries,
  )

  unfoldable pub purge_files : List String → Directory × Entries → Directory × Entries
  unfolding purge_file
  purge_files [] state = state
  purge_files (file ∷ files) state = purge_files files (purge_file file state)

  -- purgeAllCachedResources up to its calls of reloadQueue and collectNow.
  unfoldable pub purge_cached_resources : Directory × Entries → Directory × Entries
  unfolding purge_files
  purge_cached_resources (directory, entries) =
      purge_files (cached_files entries) (directory, entries)
