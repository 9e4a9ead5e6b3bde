-- ===== src/Stat/Submitted.antt =====
-- stat/Recorder and stat/records/XmlFormatter as the queue of records that CollectionInterval uses.
use xibo_linux.Base.{String, Option, none, some, List}
use xibo_linux.DateTime.{PosixTime}
use xibo_linux.Cms.Collection.{StatsQueue}
use xibo_linux.Stat.{Outcome, threw, returned, PlayingRecord, Sqlite, TimeT}
use xibo_linux.Stat.Recorder.{records_count, records, remove_from_queue}

abbrev pub as_option : {A : Type 0} → Outcome A → Option A
as_option (threw what) = none
as_option (returned a) = some a

-- `format` is XmlFormatter::format.
abbrev pub recorder_queue :
    {T D : Type 0}
    → PosixTime T
    → TimeT T
    → Sqlite D
    → (List (PlayingRecord T) → Outcome String)
    → StatsQueue (Option D) (PlayingRecord T)
recorder_queue time clock sqlite format = record {
  records_count = λ recorder. as_option (records_count time clock sqlite recorder);
  records = λ n recorder. as_option (records time clock sqlite n recorder);
  remove_from_queue = λ n recorder. as_option (remove_from_queue time clock sqlite n recorder);
  format = λ found. as_option (format found);
}
