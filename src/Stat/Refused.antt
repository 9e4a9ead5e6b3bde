-- ===== src/Stat/Refused.antt =====
-- stat/Recorder::addLayoutRecord: what the column `mediaId` of the table does to the records of layouts.
use xibo_linux.Base.{List, true, String, ◌≡◌, refl, ap, Option, none, some, ◌++ₛ◌}
use xibo_linux.DateTime.{PosixTime}
use xibo_linux.Stat.{
  threw, returned, and_then, rethrow, Played, layout_record, fill_generic_data, dto_of_record, Row,
  Sqlite, Column, stats_table, violates_not_null, TimeT,
}
use xibo_linux.Stat.Recorder.{row_of_dto, save, cache, add_layout_record}

-- An INSERT that gives NULL to a column that is declared NOT NULL fails.
pub record RefusesNull (D : Type 0) (sqlite : Sqlite D) : Type 0 where
  pub insert_null :
      (table : List Column) (row : Row) (d : D)
      → violates_not_null table row ≡ true
      → (what : String) × (sqlite.insert table row d ≡ threw what)

module _ {T D : Type 0} (time : PosixTime T) (clock : TimeT T) (sqlite : Sqlite D) where
  -- Where SQLite refuses NULL in a column that is declared NOT NULL, as `mediaId` is in the table of the
  -- statistics, addLayoutRecord throws for the record of every layout, whatever the recorder holds.
  pub add_layout_record-refused :
      (refuses : RefusesNull D sqlite) (r : Played T) (recorder : Option D)
      → (what : String) × (add_layout_record time clock sqlite (layout_record r) recorder
          ≡ threw what)
  unfolding add_layout_record cache and_then rethrow save dto_of_record fill_generic_data row_of_dto
  add_layout_record-refused refuses r none = (
    "[Stats::Recorder] Failed to add layout record to cache: " ++ₛ "cache is not initialized",
    refl,
  )
  add_layout_record-refused refuses r (some d) =
      let dto = dto_of_record time (layout_record r) in
      let (what, e) = refuses.insert_null stats_table (row_of_dto time clock sqlite dto) d refl in
      (
        "[Stats::Recorder] Failed to add layout record to cache: "
            ++ₛ ("[Stats::Database] database insert failed: " ++ₛ what),
        ap
            (λ t. rethrow "[Stats::Recorder] Failed to add layout record to cache: " (
              and_then (rethrow "[Stats::Database] database insert failed: " t)
                (λ d. returned (some d))))
            e,
      )
