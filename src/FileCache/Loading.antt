-- ===== src/FileCache/Loading.antt =====
-- common/storage/FileCacheImpl: older forms of the cache, when it is loaded. `stored` is what loadXmlFrom gives,
-- `none` where it throws a PlayerRuntimeError, and `matches` are the groups that the regular expression of
-- loadLegacyInvalidCache finds in the file, in their order; saving the cache is not modelled.
pub mod Kept
use xibo_linux.Base.{
  ℕ, zero, suc, ◌+◌, ◌-◌, ◌*◌, ◌/◌, ◌%◌, ◌≤◌, ◌<◌, String, ◌≡◌, refl, sym, ap, subst, ◌∙◌, ◌≢◌, ◌↔◌,
  ◌⊎◌, inl, inr, Bool, true, false, not, ◌&&◌, ◌||◌, Option, none, some, List, [], ◌∷◌, ◌++◌, map,
  append_assoc, append-nil, arith, ltb, leb, ◌==◌, if◌then◌else◌, Bool-cases, Option-cases,
  &&-eq-true, ◌>>=◌, is_some, >>=-eq_of_some, >>=-eq-some, ℤ, pos, negsuc, ◌+ℤ◌, ◌-ℤ◌, ◌≤ℤ◌, ltb_ℤ,
  leb_ℤ, ◌==ℤ◌, ==ℤ_iff, ==ℤ_refl, length, get_elem?, filter, any, all, find, is_empty, filter_idem,
  filter-append, all-filter, filter_of_all, all-append, any-append, length-append, get_elem?_lt,
  str_eq, str_eq_iff, ◌++ₛ◌, contains, to_string, stoi,
}
use xibo_linux.Base.Scan.{map_lower}
use xibo_linux.FileCache.{
  FileNode, Entries, file_node_name, xml_attr_node_name, text_or_empty, parse_timestamp,
}

unfoldable pub parse_bool_value : String → Bool
parse_bool_value value =
    let lowered = map_lower value in
    str_eq lowered "1" || str_eq lowered "true" || str_eq lowered "yes"

-- The groups of a match: a group that took no part is empty.
pub record LegacyEntry : Type 0 where
  pub filename : String
  pub md5 : String
  pub updated : String
  pub valid : String

abbrev timestamp_text : Option ℤ → Option String
timestamp_text none = none
timestamp_text (some timestamp) = some (to_string timestamp)

recover : LegacyEntry → String × FileNode
unfolding parse_timestamp parse_bool_value
recover legacy = (
  file_node_name,
  record {
    name = some legacy.filename;
    md5 = some legacy.md5;
    updated = timestamp_text (parse_timestamp legacy.updated);
    valid = some (parse_bool_value legacy.valid);
  },
)

-- loadLegacyInvalidCache; `none` stands for false.
unfoldable pub load_legacy_invalid_cache : List LegacyEntry → Option Entries
unfolding recover
load_legacy_invalid_cache matches = if is_empty matches then none else some (map recover matches)

-- The name of the file that an entry is about.
unfoldable pub file_name_of : String → FileNode → String
file_name_of entry node = if str_eq entry file_node_name then text_or_empty node.name else entry

canonical : String → Option ℤ → String
canonical raw none = raw
canonical raw (some timestamp) = to_string timestamp

canonical_updated : Option String → Option String
unfolding canonical parse_timestamp
canonical_updated none = none
canonical_updated (some raw) = some (canonical raw (parse_timestamp raw))

same_text : Option String → Option String → Bool
same_text (some a) (some b) = str_eq a b
same_text _ _ = true

-- The node of an entry after normalizeCacheShape, and whether it differs.
unfoldable pub normalize_node : String → FileNode → FileNode × Bool
unfolding file_name_of canonical_updated same_text
normalize_node entry node =
    let filename = file_name_of entry node in
    let updated = canonical_updated node.updated in
    let renamed = not (str_eq (text_or_empty node.name) filename) in
    (
      record node { name = if renamed then some filename else node.name; updated = updated },
      renamed || not (same_text node.updated updated) || not (str_eq entry file_node_name),
    )

-- The loop of normalizeCacheShape: the new entries, and whether something changed.
unfoldable pub normalize_entries : Entries → Entries × Bool
unfolding normalize_node file_name_of
normalize_entries [] = ([], false)
normalize_entries ((entry, node) ∷ entries) =
    let (rest, changed) = normalize_entries entries in
    let (node', differs) = normalize_node entry node in
    if str_eq entry xml_attr_node_name
    then (rest, changed)
    else if str_eq (file_name_of entry node) ""
    then (rest, changed)
    else ((file_node_name, node') ∷ rest, differs || changed)

unfoldable pub normalize_cache_shape : Entries → Entries
unfolding normalize_entries
normalize_cache_shape entries =
    let (normalized, changed) = normalize_entries entries in if changed then normalized else entries

-- loadFileHashes, for the entries of the cache before it.
unfoldable pub load_file_hashes : Option Entries → Bool → List LegacyEntry → Entries → Entries
unfolding normalize_cache_shape load_legacy_invalid_cache
load_file_hashes (some stored) exists matches entries = normalize_cache_shape stored
load_file_hashes none exists matches entries =
    if exists
    then elim (load_legacy_invalid_cache matches) [ none ↦ entries | some migrated ↦ migrated ]
    else entries
