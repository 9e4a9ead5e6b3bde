-- ===== src/Region/Cyclic.antt =====
-- placeMedia starts the first medium, counted round the list from the one it is asked for, that no
-- unexpired item of the UnsafeItemStore flags.
use xibo_linux.Base.{
  ℕ, zero, suc, ◌+◌, ◌%◌, ◌<◌, ◌≡◌, refl, sym, ap, subst, ◌∙◌, ◌⊎◌, inl, inr, Bool, true, false,
  not, ◌&&◌, ◌||◌, some, List, [], ◌∷◌, arith, Bool-cases, length, get_elem?, any, filter, leb,
  &&-eq-true, String, str_eq, to_string, filter_idem,
}
use xibo_linux.Base.Cyclic.{step_mod, wrap_mod, lt_mod}
use xibo_linux.DateTime.{PosixTime}
use xibo_linux.UnsafeStore.{
  UnsafeItem, UnsafeItems, type_eq, widget, media, cleanup_expired, is_live, is_unsafe_widget,
  is_unsafe_media,
}
use xibo_linux.Media.{Media, start}
use xibo_linux.Region.{Region, expired, set_at, place_media, next_index, is_unsafe}
use xibo_linux.Region.Candidate.{
  flagged, steps, holds_at, holds_along, next_index-lt, place_media-steps,
}

module _ {T : Type 0} (time : PosixTime T) (now : T) where
  -- An item that has not expired names the medium, as a widget or as a medium.
  abbrev pub names : Media T → UnsafeItem T → Bool
  names medium item =
      not (time.le (time.add_seconds item.date_time item.ttl) now)
      && ((type_eq item.kind widget || type_eq item.kind media)
          && str_eq item.id (to_string medium.player.id))

  abbrev pub is_flagged : UnsafeItems T → Media T → Bool
  is_flagged items medium = any (names medium) items

  any_kinds :
      (id : String) (items : UnsafeItems T)
      → (any
            (λ item. type_eq item.kind widget && str_eq item.id id)
            (filter (is_live time now) items)
          || any
              (λ item. type_eq item.kind media && str_eq item.id id)
              (filter (is_live time now) items))
        ≡ any
            (λ item.
              is_live time now item
              && ((type_eq item.kind widget || type_eq item.kind media) && str_eq item.id id))
            items
  any_kinds id [] = refl
  any_kinds id (item ∷ items) = ground (arith, any_kinds id items)

  filter_live_idem :
      (items : UnsafeItems T)
      → filter (is_live time now) (filter (is_live time now) items)
        ≡ filter (is_live time now) items
  filter_live_idem items = filter_idem (is_live time now) items

  flagged_lem :
      (items : UnsafeItems T) (medium : Media T)
      → flagged time now items medium ≡ is_flagged items medium
  unfolding is_unsafe is_unsafe_widget is_unsafe_media cleanup_expired
  flagged_lem items medium =
      ground (arith, filter_live_idem items, any_kinds (to_string medium.player.id) items)

-- A condition holds of the `count` media from an index on, counted round the list.
abbrev pub holds_round : {T : Type 0} → (Media T → Bool) → List (Media T) → ℕ → ℕ → Bool
holds_round p list index zero = true
holds_round p list index (suc count) =
    holds_at p list ((index + count) % length list) && holds_round p list index count

module _ {T : Type 0} (r : Region T) where
  next_index-mod :
      (index : ℕ)
      → index < length r.media_list
      → next_index r index ≡ (index + 1) % length r.media_list
  unfolding next_index
  next_index-mod index h = elim (Bool-cases (leb (length r.media_list) (index + 1))) [
    | inl wraps ↦ ground (arith, wrap_mod (length r.media_list) index)
    | inr inside ↦ ground (arith, lt_mod (length r.media_list) (index + 1))
  ]

  steps_lem :
      (count index : ℕ)
      → index < length r.media_list
      → steps r count index ≡ (index + count) % length r.media_list
  steps_lem zero index h =
      sym (lt_mod (length r.media_list) index h)
      ∙ ap (λ (m : ℕ). m % length r.media_list) (omega arith)
  steps_lem (suc count) index h =
      steps_lem count (next_index r index) (next_index-lt r index h)
      ∙ ap (λ (m : ℕ). (m + count) % length r.media_list) (next_index-mod index h)
      ∙ step_mod index count (length r.media_list)

  along-at :
      (p : Media T → Bool) (count index k : ℕ)
      → holds_along p r count index ≡ true
      → k < count
      → holds_at p r.media_list (steps r k index) ≡ true
  along-at p zero index k h less = absurd (omega arith)
  along-at p (suc count) index zero h less = ((&&-eq-true _ _).0 h).0
  along-at p (suc count) index (suc k) h less =
      along-at p count (next_index r index) k ((&&-eq-true _ _).0 h).1 (omega arith)

  holds_round_lem :
      (p : Media T → Bool) (count total index : ℕ)
      → index < length r.media_list
      → count < total + 1
      → holds_along p r total index ≡ true
      → holds_round p r.media_list index count ≡ true
  holds_round_lem p zero total index h less all = refl
  holds_round_lem p (suc count) total index h less all = (&&-eq-true _ _).1 (
    subst (λ at. holds_at p r.media_list at ≡ true) (steps_lem count index h)
        (along-at p total index count all (omega arith)),
    holds_round_lem p count total index h (omega arith) all,
  )

module _ {T : Type 0} (time : PosixTime T) (now : T) (r : Region T) where
  round_lem :
      (items : UnsafeItems T) (count index : ℕ)
      → index < length r.media_list
      → holds_along (flagged time now items) r count index ≡ true
      → holds_round (is_flagged time now items) r.media_list index count ≡ true
  round_lem items count index h all =
      ap (λ p. holds_round p r.media_list index count)
        (λ i medium. sym (flagged_lem time now items medium) i)
      ∙ holds_round_lem r (flagged time now items) count count index h (omega arith) all

  -- placeMedia, for an index of the list, starts the first medium from that index on, counted round the
  -- list, that no unexpired item of the store names as a widget or as a medium, makes it the current one
  -- and emits nothing. If such items name all of the media, it changes nothing in the region and emits
  -- that the region expired.
  pub place_media_lem :
      (index : ℕ) (items : UnsafeItems T)
      → index < length r.media_list
      → let n = length r.media_list in
        let (r', _, signals) = place_media time now index r items in
        (r' ≡ r)
          × (signals ≡ expired r.options.id ∷ [])
          × (holds_round (is_flagged time now items) r.media_list index n ≡ true)
        ⊎ ((skipped : ℕ) × (medium : Media T) × (skipped < n)
            × (get_elem? r.media_list ((index + skipped) % n) ≡ some medium)
            × (is_flagged time now items medium ≡ false)
            × (holds_round (is_flagged time now items) r.media_list index skipped ≡ true)
            × (r' ≡ record r {
              current_media_index = (index + skipped) % n;
              media_list = set_at r.media_list ((index + skipped) % n) (start time now medium);
            })
            × (signals ≡ []))
  place_media_lem index items h = elim (place_media-steps time now r index items h) [
    | inl (same, emits, all) ↦ inl (same, emits, round_lem items (length r.media_list) index h all)
    | inr (skipped, medium, less, get, safe, before, placed, silent) ↦
        let at = steps_lem r skipped index h in
        inr (
          skipped,
          medium,
          less,
          ap (get_elem? r.media_list) (sym at) ∙ get,
          sym (flagged_lem time now items medium) ∙ safe,
          round_lem items skipped index h before,
          placed
              ∙ ap
                  (λ k. record r {
                    current_media_index = k;
                    media_list = set_at r.media_list k (start time now medium);
                  })
                  at,
          silent,
        )
  ]
