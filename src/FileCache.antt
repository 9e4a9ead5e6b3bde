-- ===== src/FileCache.antt =====
-- common/storage/FileCacheImpl: what the cache knows of each file, as the entries of the tree that it
-- stores; a tree without a files node is the one without entries. Boost's property tree and OpenSSL are
-- outside: a node is a record of the values that the class reads and writes, with `valid` as its text
-- reads as a Boolean, and `hash_of` is the hash that Md5Hash::fromFile gives for a file that was written
-- with a content. The tree on disk, which addToCache also writes, is not modelled.
pub mod Lookup
pub mod Marked
pub mod Loading
use xibo_linux.Base.{
  ℕ, zero, suc, ◌+◌, ◌-◌, ◌*◌, ◌/◌, ◌%◌, ◌≤◌, ◌<◌, String, ◌≡◌, refl, sym, ap, subst, ◌∙◌, ◌≢◌, ◌↔◌,
  ◌⊎◌, inl, inr, Bool, true, false, not, ◌&&◌, ◌||◌, Option, none, some, List, [], ◌∷◌, ◌++◌, map,
  append_assoc, append-nil, arith, ltb, leb, ◌==◌, if◌then◌else◌, Bool-cases, Option-cases,
  &&-eq-true, ◌>>=◌, is_some, >>=-eq_of_some, >>=-eq-some, ℤ, pos, negsuc, ◌+ℤ◌, ◌-ℤ◌, ◌≤ℤ◌, ltb_ℤ,
  leb_ℤ, ◌==ℤ◌, ==ℤ_iff, ==ℤ_refl, length, get_elem?, filter, any, all, find, is_empty, filter_idem,
  filter-append, all-filter, filter_of_all, all-append, any-append, length-append, get_elem?_lt,
  str_eq, str_eq_iff, ◌++ₛ◌, contains, to_string, stoi,
}
use xibo_linux.Base.{digits_only}
use xibo_linux.DateTime.{PosixTime}

pub record FileNode : Type 0 where
  pub name : Option String
  pub md5 : Option String
  pub updated : Option String
  pub valid : Option Bool

-- The children of the files node: the name of each entry and its node.
abbrev pub Entries : Type 0
Entries = List (String × FileNode)

abbrev pub file_node_name : String
file_node_name = "file"

abbrev pub xml_attr_node_name : String
xml_attr_node_name = "<xmlattr>"

abbrev pub text_or_empty : Option String → String
text_or_empty none = ""
text_or_empty (some text) = text

abbrev pub or_false : Option Bool → Bool
or_false none = false
or_false (some b) = b

-- The condition by which findFileNode and upsertFileNode find the node of a file.
unfoldable pub is_node_of : String → String → FileNode → Bool
is_node_of filename entry node =
    (str_eq entry file_node_name && str_eq (text_or_empty node.name) filename)
    || str_eq entry filename

unfoldable pub find_file_node : String → Entries → Option FileNode
unfolding is_node_of
find_file_node filename [] = none
find_file_node filename ((entry, node) ∷ entries) =
    if is_node_of filename entry node then some node else find_file_node filename entries

unfoldable pub upsert_file_node : String → FileNode → Entries → Entries
unfolding is_node_of
upsert_file_node filename new [] = (file_node_name, new) ∷ []
upsert_file_node filename new ((entry, node) ∷ entries) =
    if is_node_of filename entry node
    then (entry, new) ∷ entries
    else (entry, node) ∷ upsert_file_node filename new entries

abbrev pub node_valid : Option FileNode → Bool
node_valid none = false
node_valid (some node) = or_false node.valid

unfoldable pub valid : String → Entries → Bool
unfolding find_file_node
valid filename entries = node_valid (find_file_node filename entries)

abbrev pub node_has_hash : String → Option FileNode → Bool
node_has_hash hash none = false
node_has_hash hash (some node) = elim node.md5 [ none ↦ false | some saved ↦ str_eq saved hash ]

-- cached, for a name and a hash.
unfoldable pub cached_hash : String → String → Entries → Bool
unfolding find_file_node
cached_hash filename hash entries = node_has_hash hash (find_file_node filename entries)

abbrev pub node_updated : Option FileNode → Option String
node_updated none = none
node_updated (some node) = node.updated

unfoldable pub uses_timestamp_validation : String → Entries → Bool
unfolding find_file_node
uses_timestamp_validation filename entries =
    is_some (node_updated (find_file_node filename entries))

unfoldable pub parse_timestamp : String → Option ℤ
parse_timestamp raw =
    let cleaned = digits_only raw in if str_eq cleaned "" then none else stoi cleaned

-- The files that have an entry, with the validity of each.
unfoldable pub listed_files : Entries → List (String × Bool)
listed_files [] = []
listed_files ((entry, node) ∷ entries) =
    let rest = listed_files entries in
    if str_eq entry file_node_name
    then (if str_eq (text_or_empty node.name) ""
        then rest
        else (text_or_empty node.name, or_false node.valid) ∷ rest)
    else if str_eq entry xml_attr_node_name
    then rest
    else (entry, or_false node.valid) ∷ rest

unfoldable pub cached_files : Entries → List String
unfolding listed_files
cached_files entries = map (λ file. file.0) (listed_files entries)

unfoldable pub invalid_files : Entries → List String
unfolding listed_files
invalid_files entries = map (λ file. file.0) (filter (λ file. not file.1) (listed_files entries))

-- The node that findFileNode gives is changed in place.
unfoldable pub mark_as_invalid : String → Entries → Entries
unfolding is_node_of
mark_as_invalid filename [] = []
mark_as_invalid filename ((entry, node) ∷ entries) =
    if is_node_of filename entry node
    then (entry, record node { valid = some false }) ∷ entries
    else (entry, node) ∷ mark_as_invalid filename entries

-- addToCache, for a hash and the one that is expected.
unfoldable pub add_hash_to_cache : String → String → String → Entries → Entries
unfolding upsert_file_node
add_hash_to_cache filename hash target entries =
    upsert_file_node filename
      (record {
        name = some filename;
        md5 = some hash;
        updated = none;
        valid = some (str_eq hash target);
      })
      entries

-- save, for a file with the hash that is expected.
unfoldable pub save_file : (String → String) → String → String → String → Entries → Entries
unfolding add_hash_to_cache
save_file hash_of filename content hash entries =
    add_hash_to_cache filename (hash_of content) hash entries

-- `to_timestamp` is the number that DateTime::timestamp gives, and `from_timestamp` the time of
-- DateTime::utcFromTimestamp.
module _ {T : Type 0} (time : PosixTime T) (to_timestamp : T → ℤ) (from_timestamp : ℤ → T) where
  -- addToCache, for a resource by the time of its last update.
  unfoldable pub add_resource_to_cache : String → String → T → Entries → Entries
  unfolding upsert_file_node
  add_resource_to_cache filename hash last_update entries =
      upsert_file_node filename
        (record {
          name = some filename;
          md5 = some hash;
          updated = some (to_string (to_timestamp last_update));
          valid = some true;
        })
        entries

  unfoldable pub save_resource : (String → String) → String → String → T → Entries → Entries
  unfolding add_resource_to_cache
  save_resource hash_of filename content last_update entries =
      add_resource_to_cache filename (hash_of content) last_update entries

  abbrev is_recent_at : T → Option ℤ → Bool
  is_recent_at last_update none = false
  is_recent_at last_update (some timestamp) = time.ge (from_timestamp timestamp) last_update

  unfoldable pub is_recent : T → Option String → Bool
  unfolding parse_timestamp
  is_recent last_update none = false
  is_recent last_update (some updated) = is_recent_at last_update (parse_timestamp updated)

  -- cached, for a resource.
  unfoldable pub cached_resource : String → T → Entries → Bool
  unfolding find_file_node is_recent
  cached_resource filename last_update entries =
      is_recent last_update (node_updated (find_file_node filename entries))
