-- ===== src/Region/Candidate.antt =====
-- placeMedia starts the first medium, from the one it is asked for, that is not unsafe, and expires the
-- region when all of its media are.
use xibo_linux.Base.{
  ℕ, zero, suc, ◌<◌, ◌≡◌, refl, sym, ap, ◌∙◌, ◌⊎◌, inl, inr, Bool, true, false, ◌&&◌, Option, none,
  some, List, [], ◌∷◌, arith, if◌then◌else◌, Bool-cases, length, get_elem?, is_empty, filter_idem,
  get_elem?_lt,
}
use xibo_linux.DateTime.{PosixTime}
use xibo_linux.UnsafeStore.{
  UnsafeItems, cleanup_expired, is_live, is_unsafe_widget, is_unsafe_media,
}
use xibo_linux.Media.{Media, start}
use xibo_linux.Region.{
  Region, expired, set_at, place_at, place_media, find_candidate, start_at, next_index, is_unsafe,
  no_content,
}

module _ {T : Type 0} (time : PosixTime T) (now : T) where
  -- Whether a medium is unsafe, and that asking cleans up the store.
  abbrev pub flagged : UnsafeItems T → Media T → Bool
  flagged items media = (is_unsafe time now media items).0

  is_unsafe_cleaned :
      (media : Media T) (items : UnsafeItems T)
      → (is_unsafe time now media items).1 ≡ cleanup_expired time now items
  unfolding is_unsafe is_unsafe_widget is_unsafe_media cleanup_expired
  is_unsafe_cleaned media items = ground (arith, filter_idem (is_live time now) items)

  flagged_cleaned :
      (media : Media T) (items : UnsafeItems T)
      → flagged (cleanup_expired time now items) media ≡ flagged items media
  unfolding is_unsafe is_unsafe_widget is_unsafe_media cleanup_expired
  flagged_cleaned media items = ground (arith, filter_idem (is_live time now) items)

-- The index after a number of steps to the next one, the first following the last.
abbrev pub steps : {T : Type 0} → Region T → ℕ → ℕ → ℕ
steps r zero index = index
steps r (suc count) index = steps r count (next_index r index)

abbrev pub holds_at : {T : Type 0} → (Media T → Bool) → List (Media T) → ℕ → Bool
holds_at p list index = elim (get_elem? list index) [ none ↦ false | some media ↦ p media ]

-- A condition holds of the media at the index and at the `count - 1` next ones.
abbrev pub holds_along : {T : Type 0} → (Media T → Bool) → Region T → ℕ → ℕ → Bool
holds_along p r zero index = true
holds_along p r (suc count) index =
    holds_at p r.media_list index && holds_along p r count (next_index r index)

module _ {T : Type 0} (r : Region T) where
  pub next_index-lt :
      (index : ℕ) → index < length r.media_list → next_index r index < length r.media_list
  unfolding next_index
  next_index-lt index h = ground arith

module _ {T : Type 0} (time : PosixTime T) (now : T) (r : Region T) where
  find_step :
      (attempts index : ℕ) (items : UnsafeItems T) (media : Media T)
      → get_elem? r.media_list index ≡ some media
      → find_candidate time now r (suc attempts) index items ≡ (
          if flagged time now items media
          then find_candidate time now r attempts
              (next_index r index)
              (cleanup_expired time now items)
          else (some index, cleanup_expired time now items))
  unfolding find_candidate
  find_step attempts index items media e = ground (arith, e, is_unsafe_cleaned time now media items)

  holds_along-flagged :
      (items : UnsafeItems T) (count index : ℕ)
      → holds_along (flagged time now (cleanup_expired time now items)) r count index
        ≡ holds_along (flagged time now items) r count index
  holds_along-flagged items count index =
      ap (λ p. holds_along p r count index) (λ i media. flagged_cleaned time now media items i)

  holds_along-suc :
      (p : Media T → Bool) (count index : ℕ) (media : Media T)
      → get_elem? r.media_list index ≡ some media
      → holds_along p r (suc count) index ≡ (p media && holds_along p r count (next_index r index))
  holds_along-suc p count index media e =
      ap
        (λ at.
          elim at [ none ↦ false | some medium ↦ p medium ]
          && holds_along p r count (next_index r index))
        e

  find_zero :
      (index : ℕ) (items : UnsafeItems T) → (find_candidate time now r 0 index items).0 ≡ none
  unfolding find_candidate
  find_zero index items = refl

  along-next :
      (items : UnsafeItems T) (count index : ℕ) (media : Media T)
      → get_elem? r.media_list index ≡ some media
      → flagged time now items media ≡ true
      → holds_along (flagged time now (cleanup_expired time now items)) r count (next_index r index)
        ≡ true
      → holds_along (flagged time now items) r (suc count) index ≡ true
  along-next items count index media e unsafe h =
      holds_along-suc (flagged time now items) count index media e
      ∙ ap (λ here. here && holds_along (flagged time now items) r count (next_index r index))
          unsafe
      ∙ sym (holds_along-flagged items count (next_index r index))
      ∙ h

  find_candidate_lem :
      (attempts index : ℕ) (items : UnsafeItems T)
      → index < length r.media_list
      → ((find_candidate time now r attempts index items).0 ≡ none)
          × (holds_along (flagged time now items) r attempts index ≡ true)
        ⊎ ((skipped : ℕ) × (media : Media T) × (skipped < attempts)
            × ((find_candidate time now r attempts index items).0 ≡ some (steps r skipped index))
            × (get_elem? r.media_list (steps r skipped index) ≡ some media)
            × (flagged time now items media ≡ false)
            × (holds_along (flagged time now items) r skipped index ≡ true))
  find_candidate_lem zero index items h = inl (find_zero index items, refl)
  find_candidate_lem (suc attempts) index items h =
      let (media, e) = get_elem?_lt r.media_list index h in
      elim (Bool-cases (flagged time now items media)) [
        | inl unsafe ↦
            let cleaned = cleanup_expired time now items in
            let stepped : (find_candidate time now r (suc attempts) index items).0
                ≡ (find_candidate time now r attempts (next_index r index) cleaned).0 =
              rw (find_step attempts index items media e, unsafe) refl in
            elim (find_candidate_lem attempts (next_index r index) cleaned
              (next_index-lt r index h)) [
                | inl (missing, all_unsafe) ↦
                    inl
                      (stepped ∙ missing, along-next items attempts index media e unsafe all_unsafe)
                | inr (skipped, found, less, at, get, safe, before) ↦ inr (
                  suc skipped,
                  found,
                  omega arith,
                  stepped ∙ at,
                  get,
                  sym (flagged_cleaned time now found items) ∙ safe,
                  along-next items skipped index media e unsafe before,
                )
              ]
        | inr safe ↦ inr (
          0,
          media,
          omega arith,
          rw (find_step attempts index items media e, safe) refl,
          e,
          safe,
          refl,
        )
      ]

  place_at_of_none :
      (found : Option ℕ × UnsafeItems T)
      → found.0 ≡ none
      → place_at time now r found ≡ (r, no_content time now r found.1, expired r.options.id ∷ [])
  unfolding place_at
  place_at_of_none (none, items) e = refl
  place_at_of_none (some index, items) e = absurd (ground arith)

  place_at_of_some :
      (found : Option ℕ × UnsafeItems T) (index : ℕ) (media : Media T)
      → found.0 ≡ some index
      → get_elem? r.media_list index ≡ some media
      → place_at time now r found ≡ (
        record r {
          current_media_index = index;
          media_list = set_at r.media_list index (start time now media);
        },
        found.1,
        [],
      )
  unfolding place_at start_at
  place_at_of_some (none, items) index media e get = absurd (ground arith)
  place_at_of_some (some found, items) index media e get = ground (arith, e, get)

  -- placeMedia, for an index of the list, starts the first medium from that index on, in cyclic
  -- order, that is neither an unsafe widget nor an unsafe medium, makes it the current one and emits
  -- nothing. If all of them, as many as the list has, are unsafe, it changes nothing in the region
  -- and emits that the region expired.
  pub place_media-steps :
      (index : ℕ) (items : UnsafeItems T)
      → index < length r.media_list
      → ((place_media time now index r items).0 ≡ r)
          × ((place_media time now index r items).2 ≡ expired r.options.id ∷ [])
          × (holds_along (flagged time now items) r (length r.media_list) index ≡ true)
        ⊎ ((skipped : ℕ) × (media : Media T) × (skipped < length r.media_list)
            × (get_elem? r.media_list (steps r skipped index) ≡ some media)
            × (flagged time now items media ≡ false)
            × (holds_along (flagged time now items) r skipped index ≡ true)
            × ((place_media time now index r items).0 ≡ record r {
              current_media_index = steps r skipped index;
              media_list = set_at r.media_list (steps r skipped index) (start time now media);
            })
            × ((place_media time now index r items).2 ≡ []))
  unfolding place_media
  place_media-steps index items h =
      let some_media : is_empty r.media_list ≡ false = ground arith in
      elim (find_candidate_lem (length r.media_list) index items h) [
        | inl (missing, all_unsafe) ↦
            let placed = place_at_of_none _ missing in
            inl (
              rw some_media (ap (λ o. o.0) placed),
              rw some_media (ap (λ o. o.2) placed),
              all_unsafe,
            )
        | inr (skipped, media, less, at, get, safe, before) ↦
            let placed = place_at_of_some _ _ media at get in
            inr (
              skipped,
              media,
              less,
              get,
              safe,
              before,
              rw some_media (ap (λ o. o.0) placed),
              rw some_media (ap (λ o. o.2) placed),
            )
      ]
