-- ===== src/Examples/Statistics.antt =====
-- The theorems on the statistics at a concrete database.
use xibo_linux.Base.{
  Bool, true, false, subst, sym, take, drop, ℕ, zero, suc, ◌+◌, ◌≤◌, String, ◌≡◌, refl, ap, Option,
  none, some, List, [], ◌∷◌, ◌++◌, map, arith, ℤ, pos, negsuc, length,
}
use mathlib.Core.List.{Permᴰ}
use mathlib.Core.List.Permᴰ
use xibo_linux.Stat.{
  Column, violates_not_null, PlayingRecord, Outcome, threw, rethrow, and_then, int_of_size,
  returned, Played, layout_record, media_record, Row, Sqlite, TimeT,
}
use xibo_linux.Stat.Recorder.{
  cache, retrieve, create_records, dtos_of_rows, add_layout_record, add_media_records, records,
}
use xibo_linux.Stat.Cached.{
  SqliteLaws, IsInt, IsStorable, none_left, first_and, add_media_records-records,
}
use xibo_linux.Stat.Refused.{RefusesNull, add_layout_record-refused}
use xibo_linux.Examples.Clock.{clock, at}

-- In place of SQLite: the table is the list of its rows.
abbrev Table : Type 0
Table = List (ℤ × Row)

abbrev inserted : Row → Bool → Table → Outcome Table
inserted row true rows = threw "NOT NULL constraint failed"
inserted row false rows = returned (rows ++ ((pos (length rows + 1), row) ∷ []))

abbrev selected : ℤ → Table → Outcome Table
selected (pos n) rows = returned (take n rows)
selected (negsuc n) rows = returned rows

abbrev deleted : ℤ → Table → Outcome Table
deleted (pos n) rows = returned (drop n rows)
deleted (negsuc n) rows = returned []

abbrev table : Sqlite Table
table = record {
  begin = returned;
  commit = returned;
  insert = λ columns row rows. inserted row (violates_not_null columns row) rows;
  select = selected;
  delete_first = deleted;
  delete_all = λ rows. returned [];
  row_count = λ rows. returned (some (pos (length rows)));
  get_int = λ v. v;
}

take_all : {A : Type 0} (n : ℕ) (xs : List A) → length xs ≤ n → take n xs ≡ xs
take_all n [] h = refl
take_all zero (x ∷ xs) h = absurd (omega arith)
take_all (suc n) (x ∷ xs) h = ap (λ ys. x ∷ ys) (take_all n xs (omega arith))

inserted_lem :
    (columns : List Column) (row : Row) (d : Table)
    → violates_not_null columns row ≡ false
    → (id : ℤ) × (d' : Table) × (inserted row (violates_not_null columns row) d ≡ returned d')
      × (d' ≡ d ++ ((id, row) ∷ []))
inserted_lem columns row d e = (
  pos (length d + 1),
  d ++ ((pos (length d + 1), row) ∷ []),
  ap (λ refused. inserted row refused d) e,
  refl,
)

abbrev table_laws : SqliteLaws Table table
table_laws = record {
  rows = λ d. d;
  begins = λ d. (d, refl, refl);
  commits = λ d. (d, refl, refl);
  inserts = inserted_lem;
  selects =
      λ n d h. (take n d, refl, subst (λ rows. Permᴰ rows d) (sym (take_all n d h)) (Permᴰ.refl d));
  get_int_lem = λ v h. refl;
}

table_refuses : RefusesNull Table table
table_refuses = record {
  insert_null =
      λ columns row d e. ("NOT NULL constraint failed", ap (λ refused. inserted row refused d) e);
}

abbrev seconds : TimeT (Option ℤ)
seconds = record { to_time_t = λ t. elim t [ none ↦ pos 0 | some n ↦ n ]; from_time_t = some }

-- An image of layout 7 from 100 to 110, and a video after it.
abbrev image : Played (Option ℤ)
image = record {
  schedule_id = pos 3;
  parent_id = pos 7;
  id = pos 31;
  interval = record { started = at 100; finished = at 110 };
  count = pos 1;
}

abbrev video : Played (Option ℤ)
video = record image { id = pos 32; interval = record { started = at 110; finished = at 170 } }

image-IsStorable : IsStorable (Option ℤ) seconds image
unfolding IsInt
image-IsStorable = record {
  schedule_id = refl;
  parent_id = refl;
  id = refl;
  count = refl;
  started = refl;
  finished = refl;
}

video-IsStorable : IsStorable (Option ℤ) seconds video
unfolding IsInt
video-IsStorable = record {
  schedule_id = refl;
  parent_id = refl;
  id = refl;
  count = refl;
  started = refl;
  finished = refl;
}

no_records : records clock seconds table 300 (some []) ≡ returned []
unfolding records rethrow and_then cache retrieve int_of_size create_records dtos_of_rows
no_records = refl

add_media_records-records_example :
    (d' : Table) × (now : List (PlayingRecord (Option ℤ))) × (add_media_records clock seconds table
        (map media_record (image ∷ video ∷ []))
        (some [])
      ≡ returned (some d'))
    × (records clock seconds table 300 (some d') ≡ returned now)
    × Permᴰ now ([] ++ map media_record (image ∷ video ∷ []))
add_media_records-records_example =
    add_media_records-records clock seconds table table_laws (image ∷ video ∷ []) 300 [] []
      (first_and image-IsStorable (first_and video-IsStorable none_left)) (omega arith)
      (omega arith) no_records

add_layout_record-refused_example :
    (what : String) × (add_layout_record clock seconds table (layout_record image) (some [])
      ≡ threw what)
add_layout_record-refused_example =
    add_layout_record-refused clock seconds table table_refuses image (some [])
