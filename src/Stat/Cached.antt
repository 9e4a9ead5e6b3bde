-- ===== src/Stat/Cached.antt =====
-- stat/Recorder: what comes out of the queue of records is what was put in.
use xibo_linux.Base.{
  false, ◌^◌, ℕ, ◌+◌, ◌-◌, ◌≤◌, ◌<◌, String, ◌≡◌, refl, sym, ap, ◌∙◌, true, ◌&&◌, Option, none,
  some, List, [], ◌∷◌, ◌++◌, map, append_assoc, append-nil, arith, ℤ, pos, negsuc, ltb_ℤ, leb_ℤ,
  length, length-append,
}
use mathlib.Core.List.{Permᴰ}
use mathlib.Core.List.Permᴰ
use xibo_linux.Stat.Unordered.{dtos_of_rows-Perm, create_records-Perm}
use xibo_linux.DateTime.{PosixTime}
use xibo_linux.Stat.{
  Outcome, threw, returned, and_then, rethrow, RecordType, layout_type, media_type,
  record_type_to_string, record_type_from_string, Played, PlayingRecord, media_record,
  create_media_record, create_playing_record, fill_generic_data, dto_of_record, RecordDto, Row,
  Sqlite, Column, stats_table, violates_not_null, TimeT, int_of_size,
}
use xibo_linux.Stat.Recorder.{
  row_of_dto, save, save_each, save_all, dto_of_row, keep_dto, dtos_of_rows, retrieve, cache,
  add_media_records, create_records, records,
}

-- An int of 32 bits.
unfoldable pub IsInt : ℤ → Type 0
IsInt v = (leb_ℤ (negsuc (2 ^ 31 - 1)) v && ltb_ℤ v (pos (2 ^ 31))) ≡ true

-- A database that can be read and written: its rows, which a SELECT answers in any order, and a column
-- that holds an int is read as it is.
pub record SqliteLaws (D : Type 0) (sqlite : Sqlite D) : Type 0 where
  pub rows : D → List (ℤ × Row)
  pub begins : (d : D) → (d' : D) × (sqlite.begin d ≡ returned d') × (rows d' ≡ rows d)
  pub commits : (d : D) → (d' : D) × (sqlite.commit d ≡ returned d') × (rows d' ≡ rows d)
  pub inserts :
      (table : List Column) (row : Row) (d : D)
      → violates_not_null table row ≡ false
      → (id : ℤ) × (d' : D) × (sqlite.insert table row d ≡ returned d')
        × (rows d' ≡ rows d ++ ((id, row) ∷ []))
  pub selects :
      (n : ℕ) (d : D)
      → length (rows d) ≤ n
      → (found : List (ℤ × Row)) × (sqlite.select (pos n) d ≡ returned found) × Permᴰ found (rows d)
  pub get_int_lem : (v : ℤ) → IsInt v → sqlite.get_int v ≡ v

-- The numbers of the record are ints, and its times are whole seconds.
pub record IsStorable (T : Type 0) (clock : TimeT T) (r : Played T) : Type 0 where
  pub schedule_id : IsInt r.schedule_id
  pub parent_id : IsInt r.parent_id
  pub id : IsInt r.id
  pub count : IsInt r.count
  pub started : clock.from_time_t (clock.to_time_t r.interval.started) ≡ r.interval.started
  pub finished : clock.from_time_t (clock.to_time_t r.interval.finished) ≡ r.interval.finished

pub data AreStorable (T : Type 0) (clock : TimeT T) : List (Played T) → Type 0 where
  none_left : AreStorable T clock []
  first_and :
      {r : Played T} {rs : List (Played T)}
      → IsStorable T clock r
      → AreStorable T clock rs
      → AreStorable T clock (r ∷ rs)

int_of_size_lem : (n : ℕ) → n < 2 ^ 31 → int_of_size n ≡ pos n
unfolding int_of_size
int_of_size_lem n e = ground arith

record_type_from-to : (t : RecordType) → record_type_from_string (record_type_to_string t) ≡ some t
unfolding record_type_from_string record_type_to_string
record_type_from-to layout_type = refl
record_type_from-to media_type = refl

and_then_shuffle :
    {A : Type 0} (x : Outcome A) (xs ys : Outcome (List A))
    → and_then x (λ r.
      and_then (and_then xs (λ a. and_then ys (λ b. returned (a ++ b)))) (λ rs. returned (r ∷ rs)))
      ≡ and_then
          (and_then x (λ r. and_then xs (λ rs. returned (r ∷ rs))))
          (λ a. and_then ys (λ b. returned (a ++ b)))
unfolding and_then
and_then_shuffle (threw what) xs ys = refl
and_then_shuffle (returned r) (threw what) ys = refl
and_then_shuffle (returned r) (returned rs) (threw what) = refl
and_then_shuffle (returned r) (returned rs) (returned ss) = refl

rethrow-returned :
    {A : Type 0} (text : String) (o : Outcome A) (a : A)
    → rethrow text o ≡ returned a
    → o ≡ returned a
unfolding rethrow
rethrow-returned text (threw what) a e = cc
rethrow-returned text (returned b) a e = e

and_then-returned : {A : Type 0} (o : Outcome A) → o ≡ and_then o (λ a. returned a)
unfolding and_then
and_then-returned (threw what) = refl
and_then-returned (returned a) = refl

module _ {T D : Type 0} (time : PosixTime T) (clock : TimeT T) (sqlite : Sqlite D) where
  create_records-append :
      (xs ys : List (RecordDto T))
      → create_records time clock sqlite (xs ++ ys)
        ≡ and_then
            (create_records time clock sqlite xs)
            (λ a. and_then (create_records time clock sqlite ys) (λ b. returned (a ++ b)))
  unfolding create_records and_then
  create_records-append [] ys = and_then-returned (create_records time clock sqlite ys)
  create_records-append (x ∷ xs) ys =
      ap (λ t. and_then (create_playing_record x) (λ r. and_then t (λ rs. returned (r ∷ rs))))
        (create_records-append xs ys)
      ∙ and_then_shuffle (create_playing_record x) (create_records time clock sqlite xs)
          (create_records time clock sqlite ys)

  keep_dto-append :
      (dto : Option (RecordDto T)) (xs ys : List (RecordDto T))
      → keep_dto time clock sqlite dto (xs ++ ys) ≡ keep_dto time clock sqlite dto xs ++ ys
  unfolding keep_dto
  keep_dto-append none xs ys = refl
  keep_dto-append (some dto) xs ys = refl

  dtos_of_rows-append :
      (xs ys : List (ℤ × Row))
      → dtos_of_rows time clock sqlite (xs ++ ys)
        ≡ dtos_of_rows time clock sqlite xs ++ dtos_of_rows time clock sqlite ys
  unfolding dtos_of_rows
  dtos_of_rows-append [] ys = refl
  dtos_of_rows-append (x ∷ xs) ys =
      ap (keep_dto time clock sqlite (dto_of_row time clock sqlite x)) (dtos_of_rows-append xs ys)
      ∙ keep_dto-append (dto_of_row time clock sqlite x) (dtos_of_rows time clock sqlite xs)
          (dtos_of_rows time clock sqlite ys)

  -- The records that the rows of a database hold.
  unfoldable loaded : List (ℤ × Row) → Outcome (List (PlayingRecord T))
  loaded rows = create_records time clock sqlite (dtos_of_rows time clock sqlite rows)

  unfoldable row_of : Played T → Row
  row_of r = row_of_dto time clock sqlite (dto_of_record time (media_record r))

  module _ (laws : SqliteLaws D sqlite) where
    loaded_one :
        (id : ℤ) (r : Played T)
        → IsStorable T clock r
        → loaded ((id, row_of r) ∷ []) ≡ returned (media_record r ∷ [])
    unfolding loaded row_of create_records dtos_of_rows dto_of_row keep_dto row_of_dto dto_of_record
        fill_generic_data create_playing_record create_media_record record_type_from_string
        record_type_to_string and_then
    loaded_one id r s =
        let schedule = laws.get_int_lem r.schedule_id s.schedule_id in
        let parent = laws.get_int_lem r.parent_id s.parent_id in
        let medium = laws.get_int_lem r.id s.id in
        let number = laws.get_int_lem r.count s.count in
        let begun = s.started in
        let ended = s.finished in rw (schedule, parent, medium, number, begun, ended)

    loaded_snoc :
        (stored : List (ℤ × Row)) (id : ℤ) (r : Played T) (old : List (PlayingRecord T))
        → IsStorable T clock r
        → loaded stored ≡ returned old
        → loaded (stored ++ ((id, row_of r) ∷ [])) ≡ returned (old ++ (media_record r ∷ []))
    unfolding loaded and_then
    loaded_snoc stored id r old s e =
        ap (create_records time clock sqlite) (dtos_of_rows-append stored ((id, row_of r) ∷ []))
        ∙ create_records-append (dtos_of_rows time clock sqlite stored)
            (dtos_of_rows time clock sqlite ((id, row_of r) ∷ []))
        ∙ let one = loaded_one id r s in rw (e, one)

    saved_each :
        (rs : List (Played T)) (d : D) (old : List (PlayingRecord T))
        → AreStorable T clock rs
        → loaded (laws.rows d) ≡ returned old
        → (d' : D) × (save_each time clock sqlite (map (dto_of_record time) (map media_record rs)) d
            ≡ returned d')
          × (loaded (laws.rows d') ≡ returned (old ++ map media_record rs))
          × (length (laws.rows d') ≡ length (laws.rows d) + length rs)
    unfolding save_each save and_then rethrow row_of row_of_dto dto_of_record fill_generic_data
    saved_each [] d old s e = (d, refl, e ∙ ap returned (sym (append-nil old)), omega arith)
    saved_each (r ∷ rs) d old (first_and s ss) e =
        let (id, d1, inserted, more) = laws.inserts stats_table (row_of r) d refl in
        let held = ap loaded more ∙ loaded_snoc (laws.rows d) id r old s e in
        let (d', saved, now, size) = saved_each rs d1 (old ++ (media_record r ∷ [])) ss held in
        let added : length (laws.rows d1) ≡ length (laws.rows d) + 1 =
          ap length more ∙ length-append (laws.rows d) ((id, row_of r) ∷ []) in
        (
          d',
          ap
                (λ t.
                  and_then (rethrow "[Stats::Database] database insert failed: " t)
                    (save_each time clock sqlite (map (dto_of_record time) (map media_record rs))))
                inserted
              ∙ saved,
          now ∙ ap returned (append_assoc old (media_record r ∷ []) (map media_record rs)),
          omega (arith, size, added),
        )

    retrieved :
        (n : ℕ) (d : D)
        → length (laws.rows d) ≤ n
        → n < 2 ^ 31
        → (found : List (ℤ × Row)) × (records time clock sqlite n (some d)
            ≡ rethrow "[Stats::Recorder] Failed to retrieve records from cache: " (loaded found))
          × Permᴰ found (laws.rows d)
    unfolding records retrieve cache and_then rethrow loaded
    retrieved n d fits small =
        let size = int_of_size_lem n small in
        let (found, read, perm) = laws.selects n d fits in (found, rw (size, read), perm)

    saved_all :
        (rs : List (Played T)) (d : D) (old : List (PlayingRecord T))
        → AreStorable T clock rs
        → loaded (laws.rows d) ≡ returned old
        → (d' : D) × (add_media_records time clock sqlite (map media_record rs) (some d)
            ≡ returned (some d'))
          × (loaded (laws.rows d') ≡ returned (old ++ map media_record rs))
          × (length (laws.rows d') ≡ length (laws.rows d) + length rs)
    unfolding add_media_records save_all cache and_then rethrow
    saved_all rs d old s e =
        let (d1, begun, same1) = laws.begins d in
        let (d2, saved, now, size) = saved_each rs d1 old s (ap loaded same1 ∙ e) in
        let (d3, committed, same3) = laws.commits d2 in
        let size1 = ap length same1 in
        let size3 = ap length same3 in
        (d3, rw (begun, saved, committed), ap loaded same3 ∙ now, omega (arith, size, size1, size3))

    -- Where a database can be written, addMediaRecords succeeds with records of media whose numbers are
    -- ints and whose times are whole seconds, and `records` for at least as many records as there are
    -- then answers those it answered before and these, each as often and unchanged, in any order.
    pub add_media_records-records :
        (rs : List (Played T)) (n : ℕ) (d : D) (old : List (PlayingRecord T))
        → AreStorable T clock rs
        → length (laws.rows d) + length rs ≤ n
        → n < 2 ^ 31
        → records time clock sqlite n (some d) ≡ returned old
        → (d' : D) × (now : List (PlayingRecord T)) × (add_media_records time clock sqlite
              (map media_record rs)
              (some d)
            ≡ returned (some d'))
          × (records time clock sqlite n (some d') ≡ returned now)
          × Permᴰ now (old ++ map media_record rs)
    unfolding loaded rethrow
    add_media_records-records rs n d old s fits small e =
        let text : String = "[Stats::Recorder] Failed to retrieve records from cache: " in
        let (found, read, order) = retrieved n d (omega (arith, fits)) small in
        let held = rethrow-returned text (loaded found) old (sym read ∙ e) in
        let (stored, holds, same) =
          create_records-Perm time clock sqlite old (dtos_of_rows-Perm time clock sqlite order)
            held in
        let (d', added, after, size) = saved_all rs d stored s holds in
        let (found', read', order') = retrieved n d' (omega (arith, fits, size)) small in
        let (now, holds', same') =
          create_records-Perm time clock sqlite (stored ++ map media_record rs)
            (dtos_of_rows-Perm time clock sqlite (Permᴰ.symm order')) after in
        (
          d',
          now,
          added,
          read' ∙ ap (rethrow text) holds',
          Permᴰ.trans (Permᴰ.symm same')
              (Permᴰ.append_right (map media_record rs) (Permᴰ.symm same)),
        )
