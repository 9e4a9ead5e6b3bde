-- ===== src/Stat/Recorder.antt =====
-- stat/storage/DatabaseProvider and stat/Recorder: the operations on the queue of records.
use xibo_linux.Base.{ℕ, Option, none, some, List, [], ◌∷◌, map, ℤ}
use xibo_linux.DateTime.{PosixTime}
use xibo_linux.Stat.{
  Outcome, threw, returned, and_then, rethrow, record_type_to_string, record_type_from_string,
  PlayingRecord, stats_table, RecordDto, Row, Sqlite, TimeT, int_of_size, size_of_int,
  dto_of_record, create_playing_record,
}

module _ {T D : Type 0} (time : PosixTime T) (clock : TimeT T) (sqlite : Sqlite D) where
  unfoldable pub row_of_dto : RecordDto T → Row
  row_of_dto dto = record {
    type = record_type_to_string dto.type;
    started = clock.to_time_t dto.started;
    finished = clock.to_time_t dto.finished;
    schedule_id = dto.schedule_id;
    layout_id = dto.layout_id;
    media_id = dto.media_id;
    duration = dto.duration;
    count = dto.count;
  }

  unfoldable pub save : RecordDto T → D → Outcome D
  save dto d =
      rethrow "[Stats::Database] database insert failed: "
        (sqlite.insert stats_table (row_of_dto dto) d)

  unfoldable pub save_each : List (RecordDto T) → D → Outcome D
  save_each [] d = returned d
  save_each (dto ∷ dtos) d = and_then (save dto d) (λ d. save_each dtos d)

  unfoldable pub save_all : List (RecordDto T) → D → Outcome D
  save_all dtos d =
      rethrow "[Stats::Database] database transaction failed: "
        (and_then (sqlite.begin d) (λ d. and_then (save_each dtos d) sqlite.commit))

  -- `none` where the type is not one of RecordType.
  unfoldable pub dto_of_row : ℤ × Row → Option (RecordDto T)
  dto_of_row (id, row) = elim (record_type_from_string row.type) [
    | none ↦ none
    | some type ↦ some (record {
      id = some (sqlite.get_int id);
      type = type;
      started = clock.from_time_t row.started;
      finished = clock.from_time_t row.finished;
      schedule_id = sqlite.get_int row.schedule_id;
      layout_id = sqlite.get_int row.layout_id;
      media_id = elim row.media_id [ none ↦ none | some m ↦ some (sqlite.get_int m) ];
      duration = sqlite.get_int row.duration;
      count = sqlite.get_int row.count;
    })
  ]

  unfoldable pub keep_dto : Option (RecordDto T) → List (RecordDto T) → List (RecordDto T)
  keep_dto none dtos = dtos
  keep_dto (some dto) dtos = dto ∷ dtos

  unfoldable pub dtos_of_rows : List (ℤ × Row) → List (RecordDto T)
  dtos_of_rows [] = []
  dtos_of_rows (row ∷ rows) = keep_dto (dto_of_row row) (dtos_of_rows rows)

  unfoldable pub retrieve : ℕ → D → Outcome (List (RecordDto T))
  retrieve count d =
      rethrow "[Stats::Database] database retrieve failed: "
        (and_then (sqlite.select (int_of_size count) d) (λ rows. returned (dtos_of_rows rows)))

  unfoldable pub remove_all : D → Outcome D
  remove_all d = rethrow "[Stats::Database] database removeAll failed: " (sqlite.delete_all d)

  unfoldable pub remove : ℕ → D → Outcome D
  remove count d =
      rethrow "[Stats::Database] database remove failed: "
        (sqlite.delete_first (int_of_size count) d)

  unfoldable pub stored_count : D → Outcome ℕ
  stored_count d = rethrow "[Stats::Database] database recordsCount failed: " (
      and_then (sqlite.row_count d)
        (λ found. returned (elim found [ none ↦ 0 | some n ↦ size_of_int (sqlite.get_int n) ])))

  -- A Recorder is its database, `none` where it could not be opened.
  unfoldable pub new_recorder : Outcome D → Option D
  new_recorder (threw what) = none
  new_recorder (returned d) = some d

  -- checkIfCacheIsValid
  unfoldable pub cache : Option D → Outcome D
  cache none = threw "cache is not initialized"
  cache (some d) = returned d

  unfoldable pub add_layout_record : PlayingRecord T → Option D → Outcome (Option D)
  add_layout_record r recorder =
      rethrow "[Stats::Recorder] Failed to add layout record to cache: " (
        and_then (cache recorder)
          (λ d. and_then (save (dto_of_record time r) d) (λ d. returned (some d))))

  unfoldable pub add_media_records : List (PlayingRecord T) → Option D → Outcome (Option D)
  add_media_records rs recorder =
      rethrow "[Stats::Recorder] Failed to add media records to cache: " (
        and_then (cache recorder)
          (λ d. and_then (save_all (map (dto_of_record time) rs) d) (λ d. returned (some d))))

  unfoldable pub remove_from_queue : ℕ → Option D → Outcome (Option D)
  remove_from_queue count recorder =
      rethrow "[Stats::Recorder] Failed to remove records from cache: "
        (and_then (cache recorder) (λ d. and_then (remove count d) (λ d. returned (some d))))

  unfoldable pub records_count : Option D → Outcome ℕ
  records_count recorder =
      rethrow "[Stats::Recorder] Failed to count records from cache: "
        (and_then (cache recorder) stored_count)

  unfoldable pub create_records : List (RecordDto T) → Outcome (List (PlayingRecord T))
  create_records [] = returned []
  create_records (dto ∷ dtos) =
      and_then (create_playing_record dto)
        (λ r. and_then (create_records dtos) (λ rs. returned (r ∷ rs)))

  unfoldable pub records : ℕ → Option D → Outcome (List (PlayingRecord T))
  records count recorder =
      rethrow "[Stats::Recorder] Failed to retrieve records from cache: "
        (and_then (cache recorder) (λ d. and_then (retrieve count d) create_records))
