-- ===== src/Cms/Collection/Stages.antt =====
-- CollectionInterval: what each stage of a cycle reports to the UI thread, and that it keeps the interval.
use xibo_linux.Base.{
  false, is_some, ◌&&◌, ltb, if◌then◌else◌, ℕ, ◌+◌, String, ◌≡◌, refl, ap, ◌∙◌, Bool, true, Option,
  none, some, List, [], ◌∷◌, ◌++◌, arith,
}
use xibo_linux.Cms.{PlayerError, Response, failed, received}
use xibo_linux.Cms.Downloads.{RegularFile, ResourceFile}
use xibo_linux.Cms.Collection.{
  Posted, collection_finished, settings_updated, schedule_available, files_downloaded,
  required_files, schedule, CollectionInterval, Answers, post, session_finished, on_submitted,
  on_schedule, update_media_inventory, on_required_files, submit_all_logs, submit_records,
  send_stats, records_to_send, StatsQueue, submit_all_stats, notify, run_stages,
}

-- How many signals of collectionFinished wait.
abbrev pub finishes : {P : Type 0} → List (Posted P) → ℕ
finishes [] = 0
finishes (collection_finished error ∷ rest) = 1 + finishes rest
finishes (settings_updated settings ∷ rest) = finishes rest
finishes (schedule_available xml ∷ rest) = finishes rest
finishes (files_downloaded ∷ rest) = finishes rest

pub finishes-append :
    {P : Type 0} (xs ys : List (Posted P)) → finishes (xs ++ ys) ≡ finishes xs + finishes ys
finishes-append [] ys = omega arith
finishes-append (collection_finished error ∷ xs) ys = omega (arith, finishes-append xs ys)
finishes-append (settings_updated settings ∷ xs) ys = finishes-append xs ys
finishes-append (schedule_available xml ∷ xs) ys = finishes-append xs ys
finishes-append (files_downloaded ∷ xs) ys = finishes-append xs ys

abbrev pub failures : {A : Type 0} → Response A → ℕ
failures (failed error) = 1
failures (received a) = 0

abbrev pub required_failures : {T P : Type 0} → Answers T P → ℕ
required_failures answers = elim answers.required [
  | failed error ↦ 1
  | received result ↦ failures answers.inventory
]

-- Whether statistics are sent: there are some, and they can be read, removed and formatted.
abbrev pub are_stats_sent : {Q R : Type 0} → StatsQueue Q R → Q → Bool
are_stats_sent queue recorder = elim (queue.records_count recorder) [
  | none ↦ false
  | some count ↦
      ltb 0 count
      && (is_some (queue.remove_from_queue (records_to_send count) recorder)
          && elim (queue.records (records_to_send count) recorder) [
            | none ↦ false
            | some records ↦ is_some (queue.format records)
          ])
]

abbrev pub stats_failures : {Q R : Type 0} → StatsQueue Q R → Response Bool → Q → ℕ
stats_failures queue answer recorder = if are_stats_sent queue recorder then failures answer else 0

module _ {T P Q : Type 0} where
  -- A stage that adds a number of signals of collectionFinished, and leaves the interval and, before the
  -- statistics are sent, the records alone.
  pub record IsStage (k : ℕ) (s s' : CollectionInterval T P Q) : Type 0 where
    pub interval_kept : s'.collect_interval ≡ s.collect_interval
    pub added : finishes s'.posted ≡ finishes s.posted + k

  pub session_finished-IsStage :
      (error : PlayerError) (s : CollectionInterval T P Q) → IsStage 1 s (session_finished error s)
  unfolding session_finished
  session_finished-IsStage error s = record {
    interval_kept = refl;
    added = finishes-append s.posted (collection_finished error ∷ []);
  }

  quiet :
      (s s' : CollectionInterval T P Q)
      → s'.collect_interval ≡ s.collect_interval
      → s'.posted ≡ s.posted
      → IsStage 0 s s'
  quiet s s' h g = record { interval_kept = h; added = ap finishes g ∙ omega arith }

  on_submitted-IsStage :
      (answer : Response Bool) (s : CollectionInterval T P Q)
      → IsStage (failures answer) s (on_submitted answer s)
  unfolding on_submitted
  on_submitted-IsStage (failed error) s = session_finished-IsStage error s
  on_submitted-IsStage (received success) s = quiet s s refl refl

  on_schedule-IsStage :
      (answer : Response String) (s : CollectionInterval T P Q)
      → IsStage (failures answer) s (on_schedule answer s)
  unfolding on_schedule
  on_schedule-IsStage (failed error) s = session_finished-IsStage error s
  on_schedule-IsStage (received xml) s = record {
    interval_kept = refl;
    added = finishes-append s.posted (schedule_available xml ∷ []);
  }

  on_schedule_recorder :
      (answer : Response String) (s : CollectionInterval T P Q)
      → (on_schedule answer s).recorder ≡ s.recorder
  unfolding on_schedule session_finished
  on_schedule_recorder (failed error) s = refl
  on_schedule_recorder (received xml) s = refl

  on_submitted_recorder :
      (answer : Response Bool) (s : CollectionInterval T P Q)
      → (on_submitted answer s).recorder ≡ s.recorder
  unfolding on_submitted session_finished
  on_submitted_recorder (failed error) s = refl
  on_submitted_recorder (received success) s = refl

  downloaded-IsStage :
      (k : ℕ) (s t : CollectionInterval T P Q)
      → IsStage k s t
      → IsStage k s (post files_downloaded t)
  downloaded-IsStage k s t h = record {
    interval_kept = h.interval_kept;
    added = finishes-append t.posted (files_downloaded ∷ []) ∙ omega (arith, h.added);
  }

  required-IsStage :
      (answers : Answers T P) (answer : Response (List RegularFile × List (ResourceFile T)))
      (s : CollectionInterval T P Q)
      → IsStage
          (elim answer [ failed error ↦ 1 | received result ↦ failures answers.inventory ])
          s
          (on_required_files answers answer s)
  unfolding on_required_files update_media_inventory
  required-IsStage answers (failed error) s = session_finished-IsStage error s
  required-IsStage answers (received (files, resources)) s =
      downloaded-IsStage (failures answers.inventory) s _ (record {
        interval_kept = (on_submitted-IsStage answers.inventory _).interval_kept;
        added = (on_submitted-IsStage answers.inventory _).added;
      })

  required_recorder :
      (answers : Answers T P) (answer : Response (List RegularFile × List (ResourceFile T)))
      (s : CollectionInterval T P Q)
      → (on_required_files answers answer s).recorder ≡ s.recorder
  unfolding on_required_files update_media_inventory session_finished
  required_recorder answers (failed error) s = refl
  required_recorder answers (received (files, resources)) s =
      on_submitted_recorder answers.inventory _

  logs-IsStage :
      (answer : Response Bool) (s : CollectionInterval T P Q)
      → IsStage (failures answer) s (submit_all_logs answer s)
  unfolding submit_all_logs
  logs-IsStage answer s = record {
    interval_kept = (on_submitted-IsStage answer _).interval_kept;
    added = (on_submitted-IsStage answer _).added;
  }

  logs_recorder :
      (answer : Response Bool) (s : CollectionInterval T P Q)
      → (submit_all_logs answer s).recorder ≡ s.recorder
  unfolding submit_all_logs
  logs_recorder answer s = on_submitted_recorder answer _

  send_stats-IsStage :
      (answer : Response Bool) (xml : Option String) (s t : CollectionInterval T P Q)
      → t.collect_interval ≡ s.collect_interval
      → t.posted ≡ s.posted
      → IsStage (if is_some xml then failures answer else 0) s (send_stats answer xml t)
  unfolding send_stats
  send_stats-IsStage answer none s t h g = quiet s t h g
  send_stats-IsStage answer (some xml) s t h g = record {
    interval_kept = (on_submitted-IsStage answer _).interval_kept ∙ h;
    added = (on_submitted-IsStage answer _).added ∙ ap (λ p. finishes p + failures answer) g;
  }

  module _ {R : Type 0} (queue : StatsQueue Q R) (answer : Response Bool)
      (s : CollectionInterval T P Q) where
    read-IsStage :
        (removed : Option Q) (read : Option (List R))
        → IsStage
            (if is_some removed
                && elim read [ none ↦ false | some records ↦ is_some (queue.format records) ]
              then failures answer
              else 0)
            s
            (elim read [
              | none ↦ s
              | some records ↦ elim removed [
                | none ↦ s
                | some recorder ↦
                    send_stats answer (queue.format records) (record s { recorder = recorder })
              ]
            ])
    read-IsStage none none = quiet s s refl refl
    read-IsStage none (some records) = quiet s s refl refl
    read-IsStage (some recorder) none = quiet s s refl refl
    read-IsStage (some recorder) (some records) =
        send_stats-IsStage answer (queue.format records) s (record s { recorder = recorder }) refl
          refl

    submitted-IsStage :
        (b : Bool) (count : ℕ)
        → IsStage
            (if b
                && (is_some (queue.remove_from_queue count s.recorder)
                    && elim (queue.records count s.recorder) [
                      | none ↦ false
                      | some records ↦ is_some (queue.format records)
                    ])
              then failures answer
              else 0)
            s
            (if b then submit_records queue answer count s else s)
    unfolding submit_records
    submitted-IsStage false count = quiet s s refl refl
    submitted-IsStage true count =
        read-IsStage (queue.remove_from_queue count s.recorder) (queue.records count s.recorder)

    counted-IsStage :
        (counted : Option ℕ)
        → IsStage
            (if elim counted [
              | none ↦ false
              | some count ↦
                  ltb 0 count
                  && (is_some (queue.remove_from_queue (records_to_send count) s.recorder)
                      && elim (queue.records (records_to_send count) s.recorder) [
                        | none ↦ false
                        | some records ↦ is_some (queue.format records)
                      ])
            ]
              then failures answer
              else 0)
            s
            (elim counted [
              | none ↦ s
              | some count ↦
                  if ltb 0 count then submit_records queue answer (records_to_send count) s else s
            ])
    counted-IsStage none = quiet s s refl refl
    counted-IsStage (some count) = submitted-IsStage (ltb 0 count) (records_to_send count)

    stats-IsStage :
        IsStage (stats_failures queue answer s.recorder) s (submit_all_stats queue answer s)
    unfolding submit_all_stats
    stats-IsStage = counted-IsStage (queue.records_count s.recorder)

  notify-IsStage :
      (answer : Response Bool) (s : CollectionInterval T P Q)
      → IsStage (failures answer) s (notify answer s)
  unfolding notify
  notify-IsStage answer s = record {
    interval_kept = (on_submitted-IsStage answer _).interval_kept;
    added = (on_submitted-IsStage answer _).added;
  }

  module _ {R : Type 0} (queue : StatsQueue Q R) (now : T) (answers : Answers T P) where
    abbrev pub stage_failures : Q → ℕ
    stage_failures recorder =
        failures answers.schedule
        + required_failures answers
        + failures answers.logs
        + stats_failures queue answers.stats recorder
        + failures answers.notify

    pub run_stages-IsStage :
        (settings : P) (s : CollectionInterval T P Q)
        → IsStage (stage_failures s.recorder) s (run_stages queue now answers settings s)
    unfolding run_stages
    run_stages-IsStage settings s =
        let asked : CollectionInterval T P Q = record s {
          status = record s.status { registered = true; last_checked = now };
          requests = (s.requests ++ (required_files ∷ [])) ++ (schedule ∷ []);
          posted = s.posted ++ (settings_updated settings ∷ []);
        } in
        let scheduled = on_schedule answers.schedule asked in
        let required = on_required_files answers answers.required scheduled in
        let logged = submit_all_logs answers.logs required in
        let sent = submit_all_stats queue answers.stats logged in
        let same : logged.recorder ≡ s.recorder =
          logs_recorder answers.logs required
          ∙ required_recorder answers answers.required scheduled
          ∙ on_schedule_recorder answers.schedule asked in
        let first = on_schedule-IsStage answers.schedule asked in
        let second = required-IsStage answers answers.required scheduled in
        let third = logs-IsStage answers.logs required in
        let fourth = stats-IsStage queue answers.stats logged in
        let fifth = notify-IsStage answers.notify sent in
        record {
          interval_kept =
              fifth.interval_kept ∙ fourth.interval_kept ∙ third.interval_kept
              ∙ second.interval_kept ∙ first.interval_kept;
          added = omega (
            arith,
            fifth.added,
            fourth.added,
            third.added,
            second.added,
            first.added,
            finishes-append s.posted (settings_updated settings ∷ []),
            ap (stats_failures queue answers.stats) same,
          );
        }
