-- ===== src/Cms/Collection/Cycle.antt =====
-- CollectionInterval: every cycle ends and arms the timer, and what it reports to the UI thread.
use xibo_linux.Base.{
  String, ◌+◌, ◌≡◌, refl, ap, ◌∙◌, ◌⊎◌, inl, inr, true, false, not, some, List, [], ◌∷◌, ◌++◌,
  arith, if◌then◌else◌, Bool-cases,
}
use xibo_linux.Cms.{PlayerError, Response, failed, received, is_error}
use xibo_linux.Cms.Collection.{
  StatsQueue, RegisterResult, added, waiting, invalid, Posted, collection_finished,
  register_display, CollectionInterval, Answers, display_status, send, session_finished, run_stages,
  on_display_registered, collect_now,
}
use xibo_linux.Cms.Collection.Stages.{
  finishes, session_finished-IsStage, stage_failures, run_stages-IsStage,
}

-- The answers to a registration that end a cycle at once, each with the error that is reported.
pub data IsRefused {P : Type 0} : Response (RegisterResult P) → PlayerError → Type 0 where
  no_answer : {error : PlayerError} → IsRefused (failed error) error
  not_licensed :
      {message : String} {settings : P}
      → IsRefused
          (received (record { code = added; message = message; settings = settings }))
          (record { domain = "CMS"; message = message })
  not_approved :
      {message : String} {settings : P}
      → IsRefused
          (received (record { code = waiting; message = message; settings = settings }))
          (record { domain = "CMS"; message = message })
  not_understood :
      {message : String} {settings : P}
      → IsRefused
          (received (record { code = invalid; message = message; settings = settings }))
          (record { domain = "CMS"; message = "Unknown error with RegisterDisplay" })

-- The error that a cycle ends with.
abbrev pub outcome : {P : Type 0} → Response (RegisterResult P) → PlayerError
outcome (failed error) = error
outcome (received result) = display_status result

module _ {T P Q R : Type 0} where
  module _ (queue : StatsQueue Q R) (now : T) (answers : Answers T P) where
    -- The state in which the worker starts.
    abbrev started : CollectionInterval T P Q → CollectionInterval T P Q
    started s = send register_display (record s { running = true })

    registered_interval :
        (answer : Response (RegisterResult P)) (s : CollectionInterval T P Q)
        → (on_display_registered queue now answers answer s).timer ≡ some s.collect_interval
    unfolding on_display_registered session_finished
    registered_interval (failed error) s = refl
    registered_interval (received result) s = elim (Bool-cases (is_error (display_status result))) [
      | inl error ↦ rw error refl
      | inr ready ↦
          rw ready (ap some (run_stages-IsStage queue now answers result.settings s).interval_kept)
    ]

    registered_end :
        (answer : Response (RegisterResult P)) (s : CollectionInterval T P Q)
        → ((on_display_registered queue now answers answer s).running ≡ false)
          × (before : List (Posted P)) × ((on_display_registered queue now answers answer s).posted
              ≡ before ++ (collection_finished (outcome answer) ∷ []))
    unfolding on_display_registered session_finished
    registered_end (failed error) s = (refl, s.posted, refl)
    registered_end (received result) s = (refl, _, refl)

    collect_now_idle :
        (s : CollectionInterval T P Q)
        → s.running ≡ false
        → collect_now queue now answers s
          ≡ on_display_registered queue now answers answers.register (started s)
    unfolding collect_now
    collect_now_idle s idle =
        ap
          (λ b.
            if not b
            then on_display_registered queue now answers answers.register (started s)
            else s)
          idle

    collect_now_running :
        (s : CollectionInterval T P Q) → s.running ≡ true → collect_now queue now answers s ≡ s
    unfolding collect_now
    collect_now_running s runs =
        ap
          (λ b.
            if not b
            then on_display_registered queue now answers answers.register (started s)
            else s)
          runs

    -- A cycle that is started while none runs ends, whatever the CMS answers: no cycle runs then, the timer is
    -- set to the interval for the next one, and the last signal reports the end of the cycle, with the
    -- error of the registration or that of the status of the display. While a cycle runs, collectNow changes nothing.
    pub collect_now-ends :
        (s : CollectionInterval T P Q)
        → let s' = collect_now queue now answers s in
          (s.running ≡ true) × (s' ≡ s)
          ⊎ (s.running ≡ false)
            × (s'.running ≡ false)
            × (s'.timer ≡ some s.collect_interval)
            × (before : List (Posted P)) × (s'.posted
                ≡ before ++ (collection_finished (outcome answers.register) ∷ []))
    collect_now-ends s = elim (Bool-cases s.running) [
      | inl runs ↦ inl (runs, collect_now_running s runs)
      | inr idle ↦
          let e = collect_now_idle s idle in
          let (stopped, before, reported) = registered_end answers.register (started s) in
          inr (
            idle,
            ap (λ t. t.running) e ∙ stopped,
            ap (λ t. t.timer) e ∙ registered_interval answers.register (started s),
            before,
            ap (λ t. t.posted) e ∙ reported,
          )
    ]

    refused_lem :
        (answer : Response (RegisterResult P)) (error : PlayerError) (s : CollectionInterval T P Q)
        → IsRefused answer error
        → on_display_registered queue now answers answer s ≡ session_finished error s
    unfolding on_display_registered display_status
    refused_lem (failed _) error s no_answer = refl
    refused_lem (received _) error s not_licensed = refl
    refused_lem (received _) error s not_approved = refl
    refused_lem (received _) error s not_understood = refl

    -- Where the registration fails or answers that the display was added, waits or is invalid, a cycle that
    -- is started while none runs asks for nothing more, reports this error once, and leaves the status, the
    -- cache and the statistics alone. For a display that was added or waits the error has the message of
    -- the CMS.
    pub collect_now-refused :
        (s : CollectionInterval T P Q) (error : PlayerError)
        → s.running ≡ false
        → IsRefused answers.register error
        → let s' = collect_now queue now answers s in
          (s'.requests ≡ s.requests ++ (register_display ∷ []))
          × (s'.posted ≡ s.posted ++ (collection_finished error ∷ []))
          × (s'.status ≡ s.status)
          × (s'.cache ≡ s.cache)
          × (s'.recorder ≡ s.recorder)
    unfolding session_finished
    collect_now-refused s error idle refused =
        let e = collect_now_idle s idle ∙ refused_lem answers.register error (started s) refused in
        (
          ap (λ t. t.requests) e,
          ap (λ t. t.posted) e,
          ap (λ t. t.status) e,
          ap (λ t. t.cache) e,
          ap (λ t. t.recorder) e,
        )

    ready_lem :
        (result : RegisterResult P) (s : CollectionInterval T P Q)
        → is_error (display_status result) ≡ false
        → on_display_registered queue now answers (received result) s
          ≡ session_finished
              (display_status result)
              (run_stages queue now answers result.settings s)
    unfolding on_display_registered
    ready_lem result s h = rw h refl

    -- Where the display is ready, a cycle that is started while none runs reports its end once, and once more
    -- for each request that fails: the schedule, the required files or else the inventory of media, the
    -- logs, the statistics if they are sent, and the status.
    pub collect_now-finishes :
        (result : RegisterResult P) (s : CollectionInterval T P Q)
        → s.running ≡ false
        → answers.register ≡ received result
        → is_error (display_status result) ≡ false
        → finishes (collect_now queue now answers s).posted
          ≡ finishes s.posted + stage_failures queue now answers s.recorder + 1
    collect_now-finishes result s idle registered ready =
        let stages = run_stages-IsStage queue now answers result.settings (started s) in
        let ended =
          session_finished-IsStage (display_status result)
            (run_stages queue now answers result.settings (started s)) in
        ap (λ t. finishes t.posted)
          (collect_now_idle s idle
            ∙ ap (λ a. on_display_registered queue now answers a (started s)) registered
            ∙ ready_lem result (started s) ready)
        ∙ omega (arith, stages.added, ended.added)
