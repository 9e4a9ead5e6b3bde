-- ===== src/Examples/Collecting.antt =====
-- The theorems on collections and downloads at concrete files and answers.
use xibo_linux.Base.{
  take, drop, length, ◌⊎◌, none, ◌<◌, ◌≤◌, ℕ, ◌+◌, ◌≤◌, ◌<◌, String, ◌≡◌, refl, ◌⊎◌, true, false,
  Option, none, some, List, [], ◌∷◌, ◌++◌, arith, ℤ, pos, length,
}
use xibo_linux.Base.Scan.{size, substr_to, substr_from}
use xibo_linux.Cms.{Response, failed, received}
use xibo_linux.Cms.Chunks.{ChunkRequest, get_file, get_dependency, chunks, download}
use xibo_linux.Cms.Chunks.Whole.{Covers, chunks-Covers, download_whole}
use xibo_linux.Cms.Downloads.{
  RegularFile, ResourceFile, http, new_regular_file, should_download_resource,
  on_resource_file_downloaded,
}
use xibo_linux.Cms.Downloads.Saved.{downloaded_resource}
use xibo_linux.Cms.Collection.{
  StatsQueue, send_stats, submit_records, records_to_send, on_submitted, session_finished, ready,
  waiting, register_display, Posted, collection_finished, CollectionInterval, Answers, new_interval,
  collect_now, submit_all_stats, display_status,
}
use xibo_linux.Cms.Collection.Stages.{finishes, stage_failures}
use xibo_linux.Cms.Collection.Cycle.{
  not_approved, outcome, collect_now-ends, collect_now-refused, collect_now-finishes,
}
use xibo_linux.Examples.Clock.{clock, at}

abbrev content : String
content = "a layout"

abbrev same_text : String → String
same_text text = text

abbrev serve : ChunkRequest → Response String
serve (get_dependency kind id offset length) =
    received (substr_to length (substr_from offset content))
serve (get_file id kind offset length) = received (substr_to length (substr_from offset content))

chunks-Covers_example :
    (parts : List (ℕ × ℕ)) × (chunks 1000000 ≡ some parts) × Covers 1000000 0 parts
chunks-Covers_example = chunks-Covers 1000000 (omega arith)

download_whole_example :
    download same_text serve "7" "layout" (size content) false ≡ some (received content)
unfolding size
download_whole_example =
    download_whole same_text serve "7" "layout" false content (omega arith)
      (λ offset length. (substr_to length (substr_from offset content), refl, refl))

abbrev seven : RegularFile
seven = new_regular_file (pos 7) 8 "aa" "" "7.xlf" "layout" http "" ""

abbrev seconds : Option ℤ → ℤ
seconds none = pos 0
seconds (some n) = n

abbrev page : ResourceFile (Option ℤ)
page = record {
  layout_id = pos 7;
  region_id = pos 1;
  media_id = pos 31;
  last_update = at 1700000000;
}

downloaded_resource_example :
    should_download_resource clock seconds some page
      (on_resource_file_downloaded clock seconds some same_text (received "<p>") page []).1
    ≡ false
downloaded_resource_example =
    downloaded_resource clock seconds some same_text "<p>" page [] 1700000000 refl (omega arith)
      refl

abbrev no_answer : {A : Type 0} → Response A
no_answer = failed (record { domain = "HTTP"; message = "timeout" })

abbrev answers : Answers (Option ℤ) String
answers = record {
  register = received (record { code = ready; message = ""; settings = "settings" });
  required = received ([], []);
  schedule = no_answer;
  downloads = λ cache. cache;
  inventory = received true;
  logs = received true;
  stats = no_answer;
  notify = received true;
}

abbrev refusing : Answers (Option ℤ) String
refusing = record answers {
  register = received (record { code = waiting; message = "not licensed"; settings = "" });
}

-- A recorder that is a list of numbers.
abbrev numbers : StatsQueue (List ℕ) ℕ
numbers = record {
  records_count = λ queue. some (length queue);
  records = λ n queue. some (take n queue);
  remove_from_queue = λ n queue. some (drop n queue);
  format = λ records. some "<stats/>";
}

abbrev interval : CollectionInterval (Option ℤ) String (List ℕ)
interval =
    new_interval (record { registered = false; last_checked = none; required_files = 0 }) []
      (1 ∷ 2 ∷ [])

collect_now-ends_example :
    let s' = collect_now numbers (at 10) answers interval in
    (interval.running ≡ true) × (s' ≡ interval)
    ⊎ (interval.running ≡ false)
      × (s'.running ≡ false)
      × (s'.timer ≡ some interval.collect_interval)
      × (before : List (Posted String)) × (s'.posted
          ≡ before ++ (collection_finished (outcome answers.register) ∷ []))
collect_now-ends_example = collect_now-ends numbers (at 10) answers interval

collect_now-refused_example :
    let s' = collect_now numbers (at 10) refusing interval in
    (s'.requests ≡ interval.requests ++ (register_display ∷ []))
    × (s'.posted
        ≡ interval.posted
          ++ (collection_finished (record { domain = "CMS"; message = "not licensed" }) ∷ []))
    × (s'.status ≡ interval.status)
    × (s'.cache ≡ interval.cache)
    × (s'.recorder ≡ interval.recorder)
collect_now-refused_example =
    collect_now-refused numbers (at 10) refusing interval
      (record { domain = "CMS"; message = "not licensed" }) refl not_approved

collect_now-finishes_example :
    finishes (collect_now numbers (at 10) answers interval).posted
    ≡ finishes interval.posted + stage_failures numbers (at 10) answers interval.recorder + 1
unfolding display_status
collect_now-finishes_example =
    collect_now-finishes numbers (at 10) answers
      (record { code = ready; message = ""; settings = "settings" }) interval refl refl refl

-- The numbers leave the queue though the request fails.
stats_are_lost : (submit_all_stats numbers no_answer interval).recorder ≡ []
unfolding submit_all_stats submit_records records_to_send send_stats on_submitted session_finished
stats_are_lost = refl

finishes_three_times : finishes (collect_now numbers (at 10) answers interval).posted ≡ 3
unfolding collect_now
finishes_three_times = refl
