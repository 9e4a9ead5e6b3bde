-- ===== src/Examples/Storage.antt =====
-- The theorems on the UnsafeItemStore at a concrete store.
use xibo_linux.Base.{
  some, none, false, String, str_eq, ◌++ₛ◌, ◌≡◌, refl, true, Option, [], ◌∷◌, ℤ, pos,
}
use xibo_linux.UnsafeStore.{
  UnsafeItems, layout, media, add_unsafe_item, add_unsafe_widget, remove_unsafe_layout,
  is_unsafe_layout, is_unsafe_media, is_unsafe_widget,
}
use xibo_linux.UnsafeStore.Laws.{HasUniqueKeys, operations-HasUniqueKeys}
use xibo_linux.FileCache.{
  Entries, valid, cached_hash, uses_timestamp_validation, save_file, listed_files,
}
use xibo_linux.FileCache.Lookup.{save_file_lem}
use xibo_linux.FileCache.Loading.{normalize_cache_shape}
use xibo_linux.FileCache.Loading.Kept.{IsProper, normalize_cache_shape_lem}
use xibo_linux.Examples.Clock.{clock, at}

-- One medium of layout 7, flagged at 10 for a minute.
abbrev one_item : UnsafeItems (Option ℤ)
one_item =
    (record {
      date_time = at 10;
      kind = media;
      code = pos 2001;
      layout_id = pos 7;
      id = "31";
      reason = "";
      ttl = pos 60;
    })
    ∷ []

operations-HasUniqueKeys_example :
    HasUniqueKeys (add_unsafe_item clock (at 20) layout (pos 5000) (pos 7) "7" "" (pos 60) one_item)
    × HasUniqueKeys (add_unsafe_widget clock (at 20) (pos 5000) "7" "" (pos 60) one_item)
    × HasUniqueKeys (remove_unsafe_layout clock (at 20) (pos 7) one_item)
    × HasUniqueKeys (is_unsafe_layout clock (at 20) (pos 7) one_item).1
    × HasUniqueKeys (is_unsafe_media clock (at 20) "7" one_item).1
    × HasUniqueKeys (is_unsafe_widget clock (at 20) "7" one_item).1
operations-HasUniqueKeys_example =
    operations-HasUniqueKeys clock (at 20) one_item layout (pos 5000) (pos 7) (pos 60) "7" ""
      (refl, tt)

-- A cache with the file of layout 7 and an image under a name of the older format.
abbrev two_files : Entries
two_files =
    ("file", record { name = some "7.xlf"; md5 = some "aa"; updated = none; valid = some true })
    ∷ ("31.png", record { name = none; md5 = some "bb"; updated = none; valid = some false })
    ∷ []

-- In place of MD5.
abbrev content_hash : String → String
content_hash content = content ++ₛ content

save_file_lem_example :
    (valid "31.png" (save_file content_hash "31.png" "b" "bb" two_files) ≡ str_eq "bb" "bb")
    × (cached_hash "31.png" "bb" (save_file content_hash "31.png" "b" "bb" two_files)
        ≡ str_eq "bb" "bb")
    × (uses_timestamp_validation "31.png" (save_file content_hash "31.png" "b" "bb" two_files)
        ≡ false)
    × (valid "7.xlf" (save_file content_hash "31.png" "b" "bb" two_files) ≡ valid "7.xlf" two_files)
    × (cached_hash "7.xlf" "bb" (save_file content_hash "31.png" "b" "bb" two_files)
        ≡ cached_hash "7.xlf" "bb" two_files)
    × (uses_timestamp_validation "7.xlf" (save_file content_hash "31.png" "b" "bb" two_files)
        ≡ uses_timestamp_validation "7.xlf" two_files)
save_file_lem_example =
    save_file_lem content_hash "31.png" "b" "bb" "7.xlf" "bb" two_files refl refl refl

-- A file called as the entries are answers by the first of them.
file_is_shadowed : valid "file" two_files ≡ true
unfolding valid
file_is_shadowed = refl

older_names : IsProper "31.png"
older_names = record { not_file_node = refl; not_xml_attr = refl; not_empty = refl }

normalize_cache_shape_lem_example :
    (listed_files (normalize_cache_shape two_files) ≡ listed_files two_files)
    × (valid "31.png" (normalize_cache_shape two_files) ≡ valid "31.png" two_files)
    × (cached_hash "31.png" "bb" (normalize_cache_shape two_files)
        ≡ cached_hash "31.png" "bb" two_files)
normalize_cache_shape_lem_example =
    normalize_cache_shape_lem "31.png" "bb" two_files refl older_names
