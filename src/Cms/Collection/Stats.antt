-- ===== src/Cms/Collection/Stats.antt =====
-- CollectionInterval::submitStats: how many records leave the queue, and what becomes of them.
use xibo_linux.Base.{ℕ, ◌≡◌, ◌⊎◌, none, some, List, [], ◌∷◌, ◌++◌, String}
use xibo_linux.Cms.Collection.{submit_stats, StatsQueue, CollectionInterval}

module _ {T P Q R : Type 0} (queue : StatsQueue Q R) where
  -- What becomes of the first records of the queue, for their number.
  abbrev pub IsSubmitted : ℕ → CollectionInterval T P Q → CollectionInterval T P Q → Type 0
  IsSubmitted n s s' =
      ((queue.records n s.recorder ≡ none) ⊎ (queue.remove_from_queue n s.recorder ≡ none))
        × (s'.requests ≡ s.requests)
        × (s'.recorder ≡ s.recorder)
      ⊎ ((records : List R) × (queue.records n s.recorder ≡ some records)
          × (queue.remove_from_queue n s.recorder ≡ some s'.recorder)
          × ((queue.format records ≡ none) × (s'.requests ≡ s.requests)
              ⊎ (xml : String) × (queue.format records ≡ some xml)
                × (s'.requests ≡ s.requests ++ (submit_stats xml ∷ []))))
