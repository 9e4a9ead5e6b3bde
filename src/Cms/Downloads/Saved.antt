-- ===== src/Cms/Downloads/Saved.antt =====
-- A file that was downloaded and saved is not downloaded again, unless its content is not the one expected.
use xibo_linux.Base.{
  ℕ, ◌<◌, String, ◌≡◌, refl, true, false, not, none, some, arith, ℤ, pos, str_eq, to_string,
}
use xibo_linux.Base.Text.Decimal.{stoi-to_string, digits_only-to_string, to_string_is_not_empty}
use xibo_linux.DateTime.{PosixTime}
use xibo_linux.FileCache.{
  FileNode, Entries, valid, cached_hash, cached_resource, save_file, save_resource,
  add_hash_to_cache, add_resource_to_cache, is_recent, parse_timestamp,
}
use xibo_linux.FileCache.Lookup.{find-upsert_self}
use xibo_linux.Cms.{PlayerError, failed, received}
use xibo_linux.Cms.Downloads.{
  RegularFile, ResourceFile, resource_name, should_download_file, on_regular_file_downloaded,
  should_download_resource, on_resource_file_downloaded,
}

-- After a regular file was downloaded, it is to be downloaded again exactly if the hash of the content that
-- came is not the one that is required; after a download that failed nothing has changed.
pub downloaded_file :
    (hash_of : String → String) (content : String) (error : PlayerError) (file : RegularFile)
    (entries : Entries)
    → (should_download_file file
          (on_regular_file_downloaded hash_of (received content) file entries).1
        ≡ not (str_eq (hash_of content) file.hash))
      × (on_regular_file_downloaded hash_of (failed error) file entries ≡ (false, entries))
unfolding on_regular_file_downloaded should_download_file save_file add_hash_to_cache valid
    cached_hash
downloaded_file hash_of content error file entries =
    let saved : FileNode = record {
      name = some file.name;
      md5 = some (hash_of content);
      updated = none;
      valid = some (str_eq (hash_of content) file.hash);
    } in
    (rw (find-upsert_self file.name saved entries refl) (ground arith), refl)

parse_timestamp-to_string :
    (n : ℕ) → n < 2147483648 → parse_timestamp (to_string (pos n)) ≡ some (pos n)
unfolding parse_timestamp
parse_timestamp-to_string n lt =
    rw (digits_only-to_string n, to_string_is_not_empty n) (stoi-to_string n lt)

module _ {T : Type 0} (time : PosixTime T) (to_timestamp : T → ℤ) (from_timestamp : ℤ → T) where
  -- After a resource was downloaded, it is not downloaded again: if the timestamp of its last update is not
  -- negative and fits in an int, and the time of this timestamp is not before the last update.
  pub downloaded_resource :
      (hash_of : String → String) (content : String) (file : ResourceFile T) (entries : Entries)
      (n : ℕ)
      → to_timestamp file.last_update ≡ pos n
      → n < 2147483648
      → time.ge (from_timestamp (pos n)) file.last_update ≡ true
      → should_download_resource time to_timestamp from_timestamp file
          (on_resource_file_downloaded time to_timestamp from_timestamp hash_of
            (received content)
            file
            entries).1
        ≡ false
  unfolding on_resource_file_downloaded should_download_resource save_resource add_resource_to_cache
      valid cached_resource is_recent
  downloaded_resource hash_of content file entries n e lt recent =
      let saved : FileNode = record {
        name = some (resource_name file);
        md5 = some (hash_of content);
        updated = some (to_string (to_timestamp file.last_update));
        valid = some true;
      } in
      rw
        (
          find-upsert_self (resource_name file) saved entries refl,
          e,
          parse_timestamp-to_string n lt,
          recent,
        )
        refl
