-- ===== src/Cms/Collection.antt =====
-- cms/CollectionInterval: a cycle of requests to the CMS. The worker thread of a cycle runs to its end here before
-- the next call, and a Response is what a request answers. The signals that wait for the UI thread are
-- recorded in `posted`, the requests in `requests`. stat/Recorder and the formatting of its records are an
-- interface, which Stat fills. What notifyStatus and submitLogs send is not modelled.
pub mod Stages
pub mod Cycle
pub mod Stats
use xibo_linux.Base.{
  ℕ, zero, suc, ◌+◌, ◌-◌, ◌*◌, ◌/◌, ◌%◌, ◌≤◌, ◌<◌, String, ◌≡◌, refl, sym, ap, subst, ◌∙◌, ◌≢◌, ◌↔◌,
  ◌⊎◌, inl, inr, Bool, true, false, not, ◌&&◌, ◌||◌, Option, none, some, List, [], ◌∷◌, ◌++◌, map,
  append_assoc, append-nil, arith, ltb, leb, ◌==◌, if◌then◌else◌, Bool-cases, Option-cases,
  &&-eq-true, ◌>>=◌, is_some, >>=-eq_of_some, >>=-eq-some, ℤ, pos, negsuc, ◌+ℤ◌, ◌-ℤ◌, ◌≤ℤ◌, ltb_ℤ,
  leb_ℤ, ◌==ℤ◌, ==ℤ_iff, ==ℤ_refl, length, get_elem?, filter, any, all, find, is_empty, filter_idem,
  filter-append, all-filter, filter_of_all, all-append, any-append, length-append, get_elem?_lt,
  str_eq, str_eq_iff, ◌++ₛ◌, contains, to_string, stoi,
}
use xibo_linux.FileCache.{Entries, valid}
use xibo_linux.Schedule.Item.{empty_layout_id}
use xibo_linux.Cms.{PlayerError, Response, failed, received, no_error, is_error}
use xibo_linux.Cms.Downloads.{RegularFile, ResourceFile, resource_name}

pub data DisplayCode : Type 0 where
  ready added waiting invalid : DisplayCode

-- RegisterDisplay::Result; `P` is the type of the settings.
pub record RegisterResult (P : Type 0) : Type 0 where
  pub code : DisplayCode
  pub message : String
  pub settings : P

pub record CmsStatus (T : Type 0) : Type 0 where
  pub registered : Bool
  pub last_checked : T
  pub required_files : ℕ

-- The requests of XmdsRequestSender that a cycle sends.
pub data Request : Type 0 where
  register_display required_files schedule submit_logs notify_status : Request
  media_inventory : List (String × Bool) → Request
  submit_stats : String → Request

pub data Posted (P : Type 0) : Type 0 where
  settings_updated : P → Posted P
  schedule_available : String → Posted P
  files_downloaded : Posted P
  collection_finished : PlayerError → Posted P

-- What a cycle uses of Stats::Recorder, whose state is a `Q`, and of Stats::XmlFormatter. `none` is an
-- exception, which leaves the recorder as it was.
pub record StatsQueue (Q R : Type 0) : Type 0 where
  pub records_count : Q → Option ℕ
  pub records : ℕ → Q → Option (List R)
  pub remove_from_queue : ℕ → Q → Option Q
  pub format : List R → Option String

-- The members of CollectionInterval, with the cache and the statistics that it shares.
pub record CollectionInterval (T P Q : Type 0) : Type 0 where
  pub running : Bool
  pub collect_interval : ℤ
  pub timer : Option ℤ
  pub status : CmsStatus T
  pub current_layout_id : ℤ
  pub cache : Entries
  pub recorder : Q
  pub requests : List Request
  pub posted : List (Posted P)

-- What the CMS answers in a cycle, and what the downloads of the required files make of the cache.
pub record Answers (T P : Type 0) : Type 0 where
  pub register : Response (RegisterResult P)
  pub required : Response (List RegularFile × List (ResourceFile T))
  pub schedule : Response String
  pub downloads : Entries → Entries
  pub inventory : Response Bool
  pub logs : Response Bool
  pub stats : Response Bool
  pub notify : Response Bool

unfoldable pub display_status : {P : Type 0} → RegisterResult P → PlayerError
display_status result = elim result.code [
  | ready ↦ no_error
  | added ↦ record { domain = "CMS"; message = result.message }
  | waiting ↦ record { domain = "CMS"; message = result.message }
  | invalid ↦ record { domain = "CMS"; message = "Unknown error with RegisterDisplay" }
]

unfoldable pub records_to_send : ℕ → ℕ
records_to_send count = if ltb 500 count then 300 else if ltb 50 count then 50 else count

unfoldable pub inventory_of :
    {T : Type 0} → List RegularFile × List (ResourceFile T) → Entries → List (String × Bool)
unfolding valid
inventory_of {T} (files, resources) cache =
    map (λ (file : RegularFile). (file.name, valid file.name cache)) files
    ++ map (λ (file : ResourceFile T). (resource_name file, valid (resource_name file) cache))
        resources

module _ {T P Q : Type 0} where
  abbrev pub send : Request → CollectionInterval T P Q → CollectionInterval T P Q
  send request s = record s { requests = s.requests ++ (request ∷ []) }

  abbrev pub post : Posted P → CollectionInterval T P Q → CollectionInterval T P Q
  post signal s = record s { posted = s.posted ++ (signal ∷ []) }

  unfoldable pub session_finished :
      PlayerError → CollectionInterval T P Q → CollectionInterval T P Q
  session_finished error s =
      post (collection_finished error)
        (record s { running = false; timer = some s.collect_interval })

  unfoldable pub on_submitted : Response Bool → CollectionInterval T P Q → CollectionInterval T P Q
  unfolding session_finished
  on_submitted (received success) s = s
  on_submitted (failed error) s = session_finished error s

  unfoldable pub on_schedule : Response String → CollectionInterval T P Q → CollectionInterval T P Q
  unfolding session_finished
  on_schedule (received xml) s = post (schedule_available xml) s
  on_schedule (failed error) s = session_finished error s

  unfoldable pub update_media_inventory :
      Response Bool
      → List RegularFile × List (ResourceFile T)
      → CollectionInterval T P Q
      → CollectionInterval T P Q
  unfolding on_submitted inventory_of
  update_media_inventory answer result s =
      on_submitted answer (send (media_inventory (inventory_of result s.cache)) s)

  unfoldable pub on_required_files :
      Answers T P
      → Response (List RegularFile × List (ResourceFile T))
      → CollectionInterval T P Q
      → CollectionInterval T P Q
  unfolding session_finished update_media_inventory
  on_required_files answers (failed error) s = session_finished error s
  on_required_files answers (received (files, resources)) s =
      let counted = record s {
        status = record s.status { required_files = length files + length resources };
        cache = answers.downloads s.cache;
      } in
      post files_downloaded (update_media_inventory answers.inventory (files, resources) counted)

  unfoldable pub submit_all_logs :
      Response Bool → CollectionInterval T P Q → CollectionInterval T P Q
  unfolding on_submitted
  submit_all_logs answer s = on_submitted answer (send submit_logs s)

  -- submitStats from the sending on; the formatting can throw.
  unfoldable pub send_stats :
      Response Bool → Option String → CollectionInterval T P Q → CollectionInterval T P Q
  unfolding on_submitted
  send_stats answer none s = s
  send_stats answer (some xml) s = on_submitted answer (send (submit_stats xml) s)

  unfoldable pub submit_records :
      {R : Type 0}
      → StatsQueue Q R
      → Response Bool
      → ℕ
      → CollectionInterval T P Q
      → CollectionInterval T P Q
  unfolding send_stats
  submit_records queue answer count s = elim (queue.records count s.recorder) [
    | none ↦ s
    | some records ↦ elim (queue.remove_from_queue count s.recorder) [
      | none ↦ s
      | some recorder ↦ send_stats answer (queue.format records) (record s { recorder = recorder })
    ]
  ]

  -- submitStats; an exception is caught.
  unfoldable pub submit_all_stats :
      {R : Type 0}
      → StatsQueue Q R
      → Response Bool
      → CollectionInterval T P Q
      → CollectionInterval T P Q
  unfolding submit_records records_to_send
  submit_all_stats queue answer s = elim (queue.records_count s.recorder) [
    | none ↦ s
    | some count ↦ if ltb 0 count then submit_records queue answer (records_to_send count) s else s
  ]

  unfoldable pub notify : Response Bool → CollectionInterval T P Q → CollectionInterval T P Q
  unfolding on_submitted
  notify answer s = on_submitted answer (send notify_status s)

  module _ {R : Type 0} (queue : StatsQueue Q R) (now : T) (answers : Answers T P) where
    -- onDisplayRegistered for a display that is ready, up to the last sessionFinished.
    unfoldable pub run_stages : P → CollectionInterval T P Q → CollectionInterval T P Q
    unfolding on_schedule on_required_files submit_all_logs submit_all_stats notify
    run_stages settings s =
        let registered = record s {
          status = record s.status { registered = true; last_checked = now };
        } in
        let asked =
          send schedule (send required_files (post (settings_updated settings) registered)) in
        notify answers.notify (
          submit_all_stats queue answers.stats (
            submit_all_logs answers.logs
              (on_required_files answers answers.required (on_schedule answers.schedule asked))))

    unfoldable pub on_display_registered :
        Response (RegisterResult P) → CollectionInterval T P Q → CollectionInterval T P Q
    unfolding session_finished run_stages display_status
    on_display_registered (failed error) s = session_finished error s
    on_display_registered (received result) s =
        let error = display_status result in
        session_finished error (if not (is_error error) then run_stages result.settings s else s)

    unfoldable pub collect_now : CollectionInterval T P Q → CollectionInterval T P Q
    unfolding on_display_registered
    collect_now s =
        if not s.running
        then on_display_registered answers.register
            (send register_display (record s { running = true }))
        else s

    -- The handler of the timer.
    unfoldable pub on_timer : CollectionInterval T P Q → CollectionInterval T P Q
    unfolding collect_now
    on_timer s = collect_now (record s { timer = none })

  unfoldable pub update_interval : ℤ → CollectionInterval T P Q → CollectionInterval T P Q
  update_interval interval s =
      if not (s.collect_interval ==ℤ interval) then record s { collect_interval = interval } else s

  abbrev pub set_current_layout_id : ℤ → CollectionInterval T P Q → CollectionInterval T P Q
  set_current_layout_id id s = record s { current_layout_id = id }

abbrev pub new_interval : {T P Q : Type 0} → CmsStatus T → Entries → Q → CollectionInterval T P Q
new_interval status cache recorder = record {
  running = false;
  collect_interval = pos 900;
  timer = none;
  status = status;
  current_layout_id = empty_layout_id;
  cache = cache;
  recorder = recorder;
  requests = [];
  posted = [];
}
