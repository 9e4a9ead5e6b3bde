-- ===== src/FileCache/Loading/Kept.antt =====
-- A cache in an older form lists the same files after it was normalised, and each is as valid as before.
use xibo_linux.Base.{
  String, ◌≡◌, refl, sym, ap, ◌∙◌, inl, inr, true, false, not, Option, some, [], ◌∷◌, arith,
  if◌then◌else◌, Bool-cases, &&-eq-true, all, str_eq, str_eq_iff,
}
use xibo_linux.FileCache.{
  FileNode, Entries, file_node_name, xml_attr_node_name, text_or_empty, or_false, is_node_of,
  find_file_node, node_valid, valid, node_has_hash, cached_hash, listed_files,
}
use xibo_linux.FileCache.Loading.{
  file_name_of, normalize_node, normalize_entries, normalize_cache_shape,
}

name_lem :
    (entry : String) (node : FileNode)
    → text_or_empty (normalize_node entry node).0.name ≡ file_name_of entry node
unfolding normalize_node
name_lem entry node =
    elim (Bool-cases (str_eq (text_or_empty node.name) (file_name_of entry node))) [
      | inl same ↦ rw same ((str_eq_iff (text_or_empty node.name) (file_name_of entry node)).0 same)
      | inr differs ↦ rw differs refl
    ]

not_file :
    (entry : String) → str_eq entry xml_attr_node_name ≡ true → str_eq entry file_node_name ≡ false
not_file entry h = ap (λ e. str_eq e file_node_name) ((str_eq_iff entry xml_attr_node_name).0 h)

listed_normal :
    (name : String) (node : FileNode) (entries : Entries)
    → text_or_empty node.name ≡ name
    → str_eq name "" ≡ false
    → listed_files ((file_node_name, node) ∷ entries)
      ≡ (name, or_false node.valid) ∷ listed_files entries
unfolding listed_files
listed_normal name node entries e h = rw (e, h) refl

-- No entry has the empty name, which no element of an XML document has.
abbrev pub IsNamed : Entries → Type 0
IsNamed entries = all (λ entry. not (str_eq entry.0 "")) entries ≡ true

module _ (entry : String) (node : FileNode) (entries : Entries) where
  skips_attributes :
      str_eq entry xml_attr_node_name ≡ true
      → (normalize_entries ((entry, node) ∷ entries)).0 ≡ (normalize_entries entries).0
  unfolding normalize_entries
  skips_attributes h = rw h refl

  skips_unnamed :
      str_eq entry xml_attr_node_name ≡ false
      → str_eq (file_name_of entry node) "" ≡ true
      → (normalize_entries ((entry, node) ∷ entries)).0 ≡ (normalize_entries entries).0
  unfolding normalize_entries
  skips_unnamed h k = rw (h, k) refl

  keeps_file :
      str_eq entry xml_attr_node_name ≡ false
      → str_eq (file_name_of entry node) "" ≡ false
      → (normalize_entries ((entry, node) ∷ entries)).0
        ≡ (file_node_name, (normalize_node entry node).0) ∷ (normalize_entries entries).0
  unfolding normalize_entries
  keeps_file h k = rw (h, k) refl

  -- What listedFiles makes of an entry.
  listed_attributes :
      str_eq entry xml_attr_node_name ≡ true
      → listed_files ((entry, node) ∷ entries) ≡ listed_files entries
  unfolding listed_files
  listed_attributes h = rw (not_file entry h, h) refl

  listed_unnamed :
      str_eq entry "" ≡ false
      → str_eq (file_name_of entry node) "" ≡ true
      → listed_files ((entry, node) ∷ entries) ≡ listed_files entries
  unfolding listed_files file_name_of
  listed_unnamed named h = ground (arith, named, h)

  listed_named :
      str_eq entry xml_attr_node_name ≡ false
      → str_eq (file_name_of entry node) "" ≡ false
      → listed_files ((entry, node) ∷ entries)
        ≡ (file_name_of entry node, or_false node.valid) ∷ listed_files entries
  unfolding listed_files file_name_of
  listed_named other h = ground (arith, other, h)

normalize_valid :
    (entry : String) (node : FileNode) → (normalize_node entry node).0.valid ≡ node.valid
unfolding normalize_node
normalize_valid entry node = refl

listed_lem :
    (entries : Entries)
    → IsNamed entries
    → listed_files (normalize_entries entries).0 ≡ listed_files entries
unfolding normalize_entries
listed_lem [] h = refl
listed_lem ((entry, node) ∷ entries) h =
    let (named, others) =
      (&&-eq-true (not (str_eq entry "")) (all (λ e. not (str_eq e.0 "")) entries)).0 h in
    let rest = listed_lem entries others in
    elim (Bool-cases (str_eq entry xml_attr_node_name)) [
      | inl attributes ↦
          ap listed_files (skips_attributes entry node entries attributes)
          ∙ rest
          ∙ sym (listed_attributes entry node entries attributes)
      | inr other ↦ elim (Bool-cases (str_eq (file_name_of entry node) "")) [
        | inl unnamed ↦
            ap listed_files (skips_unnamed entry node entries other unnamed)
            ∙ rest
            ∙ sym (listed_unnamed entry node entries (ground (arith, named)) unnamed)
        | inr is_named ↦
            ap listed_files (keeps_file entry node entries other is_named)
            ∙ listed_normal (file_name_of entry node) (normalize_node entry node).0
                (normalize_entries entries).0 (name_lem entry node) is_named
            ∙ ap
                (λ v.
                  (file_name_of entry node, or_false v)
                  ∷ listed_files (normalize_entries entries).0)
                (normalize_valid entry node)
            ∙ ap (λ l. (file_name_of entry node, or_false node.valid) ∷ l) rest
            ∙ sym (listed_named entry node entries other is_named)
      ]
    ]

-- A name that is neither empty nor that of the entries or of the attributes.
pub record IsProper (filename : String) : Type 0 where
  pub not_file_node : str_eq file_node_name filename ≡ false
  pub not_xml_attr : str_eq xml_attr_node_name filename ≡ false
  pub not_empty : str_eq "" filename ≡ false

-- For a proper name the entry is that of the file exactly if its file name is the name.
proper_node :
    (filename entry : String) (node : FileNode)
    → IsProper filename
    → is_node_of filename entry node ≡ str_eq (file_name_of entry node) filename
unfolding is_node_of file_name_of
proper_node filename entry node proper = ground (
  arith,
  proper.not_file_node,
  str_eq_iff entry file_node_name,
  str_eq_iff entry filename,
  str_eq_iff file_node_name filename,
)

proper_other :
    (filename other name : String)
    → str_eq other filename ≡ false
    → str_eq name other ≡ true
    → str_eq name filename ≡ false
proper_other filename other name h e = ap (λ t. str_eq t filename) ((str_eq_iff name other).0 e) ∙ h

find_step :
    (filename entry : String) (node : FileNode) (entries : Entries)
    → find_file_node filename ((entry, node) ∷ entries)
      ≡ (if is_node_of filename entry node then some node else find_file_node filename entries)
unfolding find_file_node
find_step filename entry node entries = refl

normal_node :
    (filename entry : String) (node : FileNode)
    → IsProper filename
    → is_node_of filename file_node_name (normalize_node entry node).0
      ≡ str_eq (file_name_of entry node) filename
unfolding file_name_of
normal_node filename entry node proper =
    proper_node filename file_node_name (normalize_node entry node).0 proper
    ∙ ap (λ t. str_eq t filename) (name_lem entry node)

found_at :
    (filename entry : String) (node : FileNode) (entries : Entries)
    → is_node_of filename entry node ≡ true
    → find_file_node filename ((entry, node) ∷ entries) ≡ some node
found_at filename entry node entries h = find_step filename entry node entries ∙ rw h refl

missed_at :
    (filename entry : String) (node : FileNode) (entries : Entries)
    → is_node_of filename entry node ≡ false
    → find_file_node filename ((entry, node) ∷ entries) ≡ find_file_node filename entries
missed_at filename entry node entries h = find_step filename entry node entries ∙ rw h refl

attributes_name :
    (entry : String) (node : FileNode)
    → str_eq entry xml_attr_node_name ≡ true
    → str_eq xml_attr_node_name (file_name_of entry node) ≡ true
unfolding file_name_of
attributes_name entry node h =
    rw (not_file entry h)
      ((str_eq_iff xml_attr_node_name entry).1 (sym ((str_eq_iff entry xml_attr_node_name).0 h)))

module _ {A : Type 0} (view : Option FileNode → A) (filename : String) (proper : IsProper filename)
    (same : (entry : String) (node : FileNode)
      → view (some (normalize_node entry node).0) ≡ view (some node)) where
  find_lem :
      (entries : Entries)
      → view (find_file_node filename (normalize_entries entries).0)
        ≡ view (find_file_node filename entries)
  unfolding normalize_entries
  find_lem [] = refl
  find_lem ((entry, node) ∷ entries) =
      let rest = find_lem entries in
      let before = proper_node filename entry node proper in
      let after = normal_node filename entry node proper in
      let skipped =
        λ (h : str_eq (file_name_of entry node) filename ≡ false)
            (e : (normalize_entries ((entry, node) ∷ entries)).0 ≡ (normalize_entries entries).0).
          ap (λ es. view (find_file_node filename es)) e
          ∙ rest
          ∙ sym (ap view (missed_at filename entry node entries (before ∙ h))) in
      elim (Bool-cases (str_eq entry xml_attr_node_name)) [
        | inl attributes ↦
            skipped
              (ap (λ t. str_eq t filename)
                  (sym (
                    (str_eq_iff xml_attr_node_name (file_name_of entry node)).0
                      (attributes_name entry node attributes)))
                ∙ proper.not_xml_attr)
              (skips_attributes entry node entries attributes)
        | inr other ↦ elim (Bool-cases (str_eq (file_name_of entry node) "")) [
          | inl unnamed ↦
              skipped (proper_other filename "" (file_name_of entry node) proper.not_empty unnamed)
                (skips_unnamed entry node entries other unnamed)
          | inr named ↦
              ap (λ es. view (find_file_node filename es))
                (keeps_file entry node entries other named)
              ∙ elim (Bool-cases (str_eq (file_name_of entry node) filename)) [
                | inl found ↦
                    ap view (
                      found_at filename file_node_name (normalize_node entry node).0
                        (normalize_entries entries).0 (after ∙ found))
                    ∙ same entry node
                    ∙ sym (ap view (found_at filename entry node entries (before ∙ found)))
                | inr missed ↦
                    ap view (
                      missed_at filename file_node_name (normalize_node entry node).0
                        (normalize_entries entries).0 (after ∙ missed))
                    ∙ rest
                    ∙ sym (ap view (missed_at filename entry node entries (before ∙ missed)))
              ]
        ]
      ]

kept_by_choice :
    {A : Type 0} (f : Entries → A) (entries : Entries)
    → f (normalize_entries entries).0 ≡ f entries
    → f (normalize_cache_shape entries) ≡ f entries
unfolding normalize_cache_shape
kept_by_choice f entries h = elim (Bool-cases (normalize_entries entries).1) [
  | inl changed ↦ rw changed h
  | inr same ↦ rw same refl
]

-- Normalising a cache, none of whose entries has the empty name, leaves the list of its files with their
-- validity as it was; and each file, whose name is neither empty nor that of the entries or of the
-- attributes, is valid, and cached under a hash, exactly if it was.
pub normalize_cache_shape_lem :
    (filename hash : String) (entries : Entries)
    → IsNamed entries
    → IsProper filename
    → (listed_files (normalize_cache_shape entries) ≡ listed_files entries)
      × (valid filename (normalize_cache_shape entries) ≡ valid filename entries)
      × (cached_hash filename hash (normalize_cache_shape entries)
          ≡ cached_hash filename hash entries)
unfolding valid cached_hash normalize_node
normalize_cache_shape_lem filename hash entries named proper = (
  kept_by_choice listed_files entries (listed_lem entries named),
  kept_by_choice (λ es. node_valid (find_file_node filename es)) entries
      (find_lem node_valid filename proper (λ entry node. refl) entries),
  kept_by_choice (λ es. node_has_hash hash (find_file_node filename es)) entries
      (find_lem (node_has_hash hash) filename proper (λ entry node. refl) entries),
)
