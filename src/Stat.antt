-- ===== src/Stat.antt =====
-- stat/Recorder, stat/storage and stat/records: the statistics of what was played, and the queue of them
-- in a SQLite database. SQLite is not part of the repository: its statements are a parameter. A C++
-- exception is a value that holds its text. The formatting as XML is not modelled.
pub mod Recorder
pub mod Cached
pub mod Unordered
pub mod Submitted
pub mod Refused
use xibo_linux.Base.{
  any, not, is_some, ◌&&◌, List, [], ◌∷◌, Bool, true, false, ◌^◌, ℕ, zero, suc, ◌+◌, ◌-◌, ◌*◌, ◌/◌,
  ◌%◌, ◌≤◌, ◌<◌, String, ◌≡◌, refl, sym, ap, subst, ◌∙◌, ◌≢◌, ◌↔◌, ◌⊎◌, inl, inr, Bool, true, false,
  not, ◌&&◌, ◌||◌, Option, none, some, List, [], ◌∷◌, ◌++◌, map, append_assoc, append-nil, arith,
  ltb, leb, ◌==◌, if◌then◌else◌, Bool-cases, Option-cases, &&-eq-true, ◌>>=◌, is_some,
  >>=-eq_of_some, >>=-eq-some, ℤ, pos, negsuc, ◌+ℤ◌, ◌-ℤ◌, ◌≤ℤ◌, ltb_ℤ, leb_ℤ, ◌==ℤ◌, ==ℤ_iff,
  ==ℤ_refl, length, get_elem?, filter, any, all, find, is_empty, filter_idem, filter-append,
  all-filter, filter_of_all, all-append, any-append, length-append, get_elem?_lt, str_eq,
  str_eq_iff, ◌++ₛ◌, contains, to_string, stoi,
}
use xibo_linux.DateTime.{PosixTime}
use xibo_linux.Media.{PlayingTime}

pub data Outcome (A : Type 0) : Type 0 where
  threw : String → Outcome A
  returned : A → Outcome A

unfoldable pub and_then : {A B : Type 0} → Outcome A → (A → Outcome B) → Outcome B
and_then (threw what) next = threw what
and_then (returned a) next = next a

-- A catch that throws its Error with a text before that of the exception.
unfoldable pub rethrow : {A : Type 0} → String → Outcome A → Outcome A
rethrow text (threw what) = threw (text ++ₛ what)
rethrow text (returned a) = returned a

pub data RecordType : Type 0 where
  layout_type media_type : RecordType

unfoldable pub record_type_to_string : RecordType → String
record_type_to_string layout_type = "layout"
record_type_to_string media_type = "media"

unfoldable pub record_type_from_string : String → Option RecordType
record_type_from_string t =
    if str_eq t "layout"
    then some layout_type
    else (if str_eq t "media" then some media_type else none)

pub record Played (T : Type 0) : Type 0 where
  pub schedule_id : ℤ
  pub parent_id : ℤ
  pub id : ℤ
  pub interval : PlayingTime T
  pub count : ℤ

-- A Record by its class.
pub data PlayingRecord (T : Type 0) : Type 0 where
  layout_record media_record : Played T → PlayingRecord T

abbrev pub invalid_id : ℤ
invalid_id = negsuc 0

unfoldable pub create_layout_record : {T : Type 0} → ℤ → ℤ → PlayingTime T → ℤ → PlayingRecord T
create_layout_record schedule_id id interval count = layout_record (record {
  schedule_id = schedule_id;
  parent_id = invalid_id;
  id = id;
  interval = interval;
  count = count;
})

unfoldable pub create_media_record : {T : Type 0} → ℤ → ℤ → ℤ → PlayingTime T → ℤ → PlayingRecord T
create_media_record schedule_id parent_id id interval count = media_record (record {
  schedule_id = schedule_id;
  parent_id = parent_id;
  id = id;
  interval = interval;
  count = count;
})

-- `id` is `none` where nothing has set it.
pub record RecordDto (T : Type 0) : Type 0 where
  pub id : Option ℤ
  pub type : RecordType
  pub started : T
  pub finished : T
  pub schedule_id : ℤ
  pub layout_id : ℤ
  pub media_id : Option ℤ
  pub duration : ℤ
  pub count : ℤ

-- A row of the table `stats` without its id; `none` is NULL.
pub record Row : Type 0 where
  pub type : String
  pub started : ℤ
  pub finished : ℤ
  pub schedule_id : ℤ
  pub layout_id : ℤ
  pub media_id : Option ℤ
  pub duration : ℤ
  pub count : ℤ

-- A column of a table, as it is declared.
pub record Column : Type 0 where
  pub name : String
  pub declared : String
  pub not_null : Bool

-- The table that the constructor of DatabaseProvider creates, if the database does not have it yet.
abbrev pub stats_table : List Column
stats_table =
    (record { name = "id"; declared = "INTEGER PRIMARY KEY AUTOINCREMENT"; not_null = false })
    ∷ (record { name = "type"; declared = "TEXT"; not_null = true })
    ∷ (record { name = "started"; declared = "INTEGER"; not_null = true })
    ∷ (record { name = "finished"; declared = "INTEGER"; not_null = true })
    ∷ (record { name = "scheduleId"; declared = "INTEGER"; not_null = true })
    ∷ (record { name = "layoutId"; declared = "INTEGER"; not_null = true })
    ∷ (record { name = "mediaId"; declared = "INTEGER"; not_null = true })
    ∷ (record { name = "duration"; declared = "INTEGER"; not_null = true })
    ∷ (record { name = "count"; declared = "INTEGER"; not_null = true })
    ∷ []

-- Whether a row gives NULL to a column: only the medium can be missing, and the id is set by SQLite.
abbrev pub is_null : Row → Column → Bool
is_null row column = not (is_some row.media_id) && str_eq column.name "mediaId"

-- Whether a row gives NULL to a column that is declared NOT NULL.
abbrev pub violates_not_null : List Column → Row → Bool
violates_not_null table row = any (λ column. column.not_null && is_null row column) table

-- The statements that are run on a database, the Transaction, and the reading of a column as an int.
-- `insert` is into a table with these columns. A transaction that is not committed leaves the database as it was.
pub record Sqlite (D : Type 0) : Type 0 where
  pub begin : D → Outcome D
  pub commit : D → Outcome D
  pub insert : List Column → Row → D → Outcome D
  pub select : ℤ → D → Outcome (List (ℤ × Row))
  pub delete_first : ℤ → D → Outcome D
  pub delete_all : D → Outcome D
  pub row_count : D → Outcome (Option ℤ)
  pub get_int : ℤ → ℤ

-- The conversions of boost::posix_time to and from a time_t.
pub record TimeT (T : Type 0) : Type 0 where
  pub to_time_t : T → ℤ
  pub from_time_t : ℤ → T

-- A size_t as an int, and an int as a size_t.
unfoldable pub int_of_size : ℕ → ℤ
int_of_size n =
    let low = n % 2 ^ 32 in if ltb low (2 ^ 31) then pos low else negsuc (2 ^ 32 - low - 1)

unfoldable pub size_of_int : ℤ → ℕ
size_of_int (pos n) = n
size_of_int (negsuc n) = 2 ^ 64 - (n + 1)

module _ {T : Type 0} (time : PosixTime T) where
  unfoldable pub record_duration : Played T → ℤ
  record_duration r = time.seconds_between r.interval.finished r.interval.started

  -- The type and the id of the layout are set by each `visit`.
  unfoldable pub fill_generic_data : Played T → RecordDto T
  fill_generic_data r = record {
    id = none;
    type = layout_type;
    started = r.interval.started;
    finished = r.interval.finished;
    schedule_id = r.schedule_id;
    layout_id = invalid_id;
    media_id = none;
    duration = record_duration r;
    count = r.count;
  }

  unfoldable pub dto_of_record : PlayingRecord T → RecordDto T
  dto_of_record (layout_record r) = record (fill_generic_data r) {
    layout_id = r.id;
    type = layout_type;
  }
  dto_of_record (media_record r) = record (fill_generic_data r) {
    layout_id = r.parent_id;
    media_id = some r.id;
    type = media_type;
  }

module _ {T : Type 0} where
  unfoldable pub create_playing_record : RecordDto T → Outcome (PlayingRecord T)
  create_playing_record dto =
      let interval : PlayingTime T = record { started = dto.started; finished = dto.finished } in
      elim dto.type [
        | layout_type ↦
            returned (create_layout_record dto.schedule_id dto.layout_id interval dto.count)
        | media_type ↦ elim dto.media_id [
          | none ↦ threw "bad optional access"
          | some id ↦
              returned (create_media_record dto.schedule_id dto.layout_id id interval dto.count)
        ]
      ]
