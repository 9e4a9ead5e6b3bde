-- ===== src/Cms/Downloads.antt =====
-- common/storage/RequiredItems and cms/RequiredFilesDownloader: the files that the CMS requires, which of them
-- are downloaded, and what a finished download saves. HttpClient and Uri::fromString are the parameter
-- `http_get`, `none` where it throws. Downloads of a batch run side by side; each is modelled alone.
pub mod Saved
use xibo_linux.Base.{
  ℕ, zero, suc, ◌+◌, ◌-◌, ◌*◌, ◌/◌, ◌%◌, ◌≤◌, ◌<◌, String, ◌≡◌, refl, sym, ap, subst, ◌∙◌, ◌≢◌, ◌↔◌,
  ◌⊎◌, inl, inr, Bool, true, false, not, ◌&&◌, ◌||◌, Option, none, some, List, [], ◌∷◌, ◌++◌, map,
  append_assoc, append-nil, arith, ltb, leb, ◌==◌, if◌then◌else◌, Bool-cases, Option-cases,
  &&-eq-true, ◌>>=◌, is_some, >>=-eq_of_some, >>=-eq-some, ℤ, pos, negsuc, ◌+ℤ◌, ◌-ℤ◌, ◌≤ℤ◌, ltb_ℤ,
  leb_ℤ, ◌==ℤ◌, ==ℤ_iff, ==ℤ_refl, length, get_elem?, filter, any, all, find, is_empty, filter_idem,
  filter-append, all-filter, filter_of_all, all-append, any-append, length-append, get_elem?_lt,
  str_eq, str_eq_iff, ◌++ₛ◌, contains, to_string, stoi,
}
use xibo_linux.DateTime.{PosixTime}
use xibo_linux.FileCache.{Entries, valid, cached_hash, cached_resource, save_file, save_resource}
use xibo_linux.Cms.{PlayerError, Response, failed, received}
use xibo_linux.Cms.Chunks.{ChunkRequest, get_file, get_dependency, download}

pub data DownloadType : Type 0 where
  http xmds invalid : DownloadType

pub record RegularFile : Type 0 where
  pub id : ℤ
  pub size : ℕ
  pub hash : String
  pub url : String
  pub name : String
  pub kind : String
  pub remote_id : String
  pub request_type : String
  pub download_type : DownloadType

-- The constructor of RegularFile.
unfoldable pub new_regular_file :
    ℤ → ℕ → String → String → String → String → DownloadType → String → String → RegularFile
new_regular_file id size hash url name kind download_type remote_id request_type = record {
  id = id;
  size = size;
  hash = hash;
  url = url;
  name = name;
  kind = kind;
  remote_id = if str_eq remote_id "" then to_string id else remote_id;
  request_type = if str_eq request_type "" then kind else request_type;
  download_type = download_type;
}

abbrev pub is_dependency : RegularFile → Bool
is_dependency file = str_eq file.kind "dependency"

pub record ResourceFile (T : Type 0) : Type 0 where
  pub layout_id : ℤ
  pub region_id : ℤ
  pub media_id : ℤ
  pub last_update : T

-- ResourceFile::name
abbrev pub resource_name : {T : Type 0} → ResourceFile T → String
resource_name file = to_string file.media_id ++ₛ ".html"

unfoldable pub should_download_file : RegularFile → Entries → Bool
unfolding valid cached_hash
should_download_file file entries =
    not (valid file.name entries) || not (cached_hash file.name file.hash entries)

-- `hash_of` is the hash of a file that was written with a content.
module _ (hash_of : String → String) where
  unfoldable pub on_regular_file_downloaded :
      Response String → RegularFile → Entries → Bool × Entries
  unfolding save_file
  on_regular_file_downloaded (failed error) file entries = (false, entries)
  on_regular_file_downloaded (received content) file entries =
      (true, save_file hash_of file.name content file.hash entries)

  finish_file : RegularFile → Option (Response String) → Entries → Option Bool × Entries
  unfolding on_regular_file_downloaded
  finish_file file none entries = (none, entries)
  finish_file file (some response) entries =
      let (done, entries') = on_regular_file_downloaded response file entries in
      (some done, entries')

  module _ (from_base64 : String → String) (answer : ChunkRequest → Response String)
      (http_get : String → Option (Response String)) where
    response_of : DownloadType → RegularFile → Option (Response String)
    unfolding download
    response_of http file = http_get file.url
    response_of xmds file =
        download from_base64 answer file.remote_id file.request_type file.size (is_dependency file)
    response_of invalid file =
        download from_base64 answer file.remote_id file.request_type file.size (is_dependency file)

    -- tryDownloadRequiredFile, to the end of the download; `none` where it throws before it is queued.
    unfoldable pub download_required_file : RegularFile → Entries → Option Bool × Entries
    unfolding finish_file response_of
    download_required_file file entries =
        finish_file file (response_of file.download_type file) entries

module _ {T : Type 0} (time : PosixTime T) (to_timestamp : T → ℤ) (from_timestamp : ℤ → T) where
  unfoldable pub should_download_resource : ResourceFile T → Entries → Bool
  unfolding valid cached_resource
  should_download_resource file entries =
      not (valid (resource_name file) entries)
      || not (
          cached_resource time to_timestamp from_timestamp (resource_name file) file.last_update
            entries)

  unfoldable pub on_resource_file_downloaded :
      (String → String) → Response String → ResourceFile T → Entries → Bool × Entries
  unfolding save_resource
  on_resource_file_downloaded hash_of (failed error) file entries = (false, entries)
  on_resource_file_downloaded hash_of (received content) file entries = (
    true,
    save_resource time to_timestamp from_timestamp hash_of (resource_name file) content
        file.last_update entries,
  )
