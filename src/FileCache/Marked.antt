-- ===== src/FileCache/Marked.antt =====
-- A file that is valid after another was marked has the node that it had.
use xibo_linux.Base.{
  String, ◌≡◌, refl, sym, ap, ◌∙◌, inl, inr, true, false, [], ◌∷◌, arith, Bool-cases,
}
use xibo_linux.FileCache.{Entries, is_node_of, find_file_node, node_valid, valid, mark_as_invalid}
use xibo_linux.FileCache.Lookup.{mark_keeps_name}

find-mark_valid :
    (marked filename : String) (entries : Entries)
    → node_valid (find_file_node filename (mark_as_invalid marked entries)) ≡ true
    → find_file_node filename (mark_as_invalid marked entries) ≡ find_file_node filename entries
unfolding find_file_node mark_as_invalid
find-mark_valid marked filename [] h = refl
find-mark_valid marked filename ((entry, node) ∷ entries) h =
    elim (Bool-cases (is_node_of marked entry node)) [
      | inl found ↦ elim (Bool-cases (is_node_of filename entry node)) [
        | inl same ↦ absurd (ground (arith, h, found, same, mark_keeps_name filename entry node))
        | inr other ↦ rw (found, mark_keeps_name filename entry node, other) refl
      ]
      | inr missing ↦ elim (Bool-cases (is_node_of filename entry node)) [
        | inl same ↦ rw (missing, same) refl
        | inr other ↦
            rw (missing, other) (find-mark_valid marked filename entries (rw (missing, other) at h))
      ]
    ]

pub find-mark :
    (marked filename : String) (entries : Entries)
    → valid filename (mark_as_invalid marked entries) ≡ true
    → find_file_node filename (mark_as_invalid marked entries) ≡ find_file_node filename entries
unfolding valid
find-mark marked filename entries h = find-mark_valid marked filename entries h

pub valid-mark :
    (marked filename : String) (entries : Entries)
    → valid filename (mark_as_invalid marked entries) ≡ true
    → valid filename entries ≡ true
unfolding valid
valid-mark marked filename entries h =
    ap node_valid (sym (find-mark_valid marked filename entries h)) ∙ h

-- A file that is not valid does not become valid when a file is marked.
pub invalid-mark :
    (marked filename : String) (entries : Entries)
    → valid filename entries ≡ false
    → valid filename (mark_as_invalid marked entries) ≡ false
invalid-mark marked filename entries h =
    elim (Bool-cases (valid filename (mark_as_invalid marked entries))) [
      | inl is_valid ↦ absurd (ground (arith, h, valid-mark marked filename entries is_valid))
      | inr is_invalid ↦ is_invalid
    ]
