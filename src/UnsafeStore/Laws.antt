-- ===== src/UnsafeStore/Laws.antt =====
-- The keys of the store stay unique, and its queries answer by the items that have not expired.
use xibo_linux.Base.{
  String, ◌≡◌, refl, sym, ap, ◌∙◌, ◌≢◌, ◌↔◌, inl, inr, Bool, true, false, not, ◌&&◌, [], ◌∷◌, arith,
  if◌then◌else◌, Bool-cases, ℤ, pos, ◌==ℤ◌, ==ℤ_iff, ==ℤ_refl, filter, any, str_eq_iff,
}
use xibo_linux.DateTime.{PosixTime}
use xibo_linux.UnsafeStore.{
  UnsafeItemType, UnsafeItem, UnsafeItems, type_eq, has_key, is_live, default_unsafe_ttl,
  cleanup_expired, put_item, add_unsafe_item, add_unsafe_widget, remove_unsafe_layout,
  is_unsafe_layout, is_unsafe_media, is_unsafe_widget,
}

-- No two items have the same type, layout and id.
abbrev pub HasUniqueKeys : {T : Type 0} → UnsafeItems T → Type 0
HasUniqueKeys [] = Unit
HasUniqueKeys (item ∷ items) =
    (any (has_key item.kind item.layout_id item.id) items ≡ false) × HasUniqueKeys items

type_eq_iff : (a b : UnsafeItemType) → (type_eq a b ≡ true) ↔ (a ≡ b)
type_eq_iff a b = (λ h. ground arith, λ h. ground arith)

module _ {T : Type 0} where
  any-filter :
      (p q : UnsafeItem T → Bool) (items : UnsafeItems T)
      → any p items ≡ false
      → any p (filter q items) ≡ false
  any-filter p q [] h = refl
  any-filter p q (item ∷ items) h = ground (arith, any-filter p q items)

  filter-HasUniqueKeys :
      (p : UnsafeItem T → Bool) (items : UnsafeItems T)
      → HasUniqueKeys items
      → HasUniqueKeys (filter p items)
  filter-HasUniqueKeys p [] h = tt
  filter-HasUniqueKeys p (item ∷ items) h = elim (Bool-cases (p item)) [
    | inl stays ↦ rw stays (
      any-filter (has_key item.kind item.layout_id item.id) p items h.0,
      filter-HasUniqueKeys p items h.1,
    )
    | inr goes ↦ rw goes (filter-HasUniqueKeys p items h.1)
  ]

  -- Items with the key of `new` have the key of whatever has the key of `new`.
  has_key_trans :
      (new item other : UnsafeItem T)
      → has_key new.kind new.layout_id new.id item ≡ true
      → has_key item.kind item.layout_id item.id other ≡ has_key new.kind new.layout_id new.id other
  has_key_trans new item other h = ground (
    arith,
    type_eq_iff item.kind new.kind,
    ==ℤ_iff item.layout_id new.layout_id,
    str_eq_iff item.id new.id,
  )

  any_congr :
      (p q : UnsafeItem T → Bool) (items : UnsafeItems T)
      → ((item : UnsafeItem T) → p item ≡ q item)
      → any p items ≡ any q items
  any_congr p q [] h = refl
  any_congr p q (item ∷ items) h = rw (h item, any_congr p q items h)

  has_key_sym :
      (a b : UnsafeItem T)
      → has_key a.kind a.layout_id a.id b ≡ false
      → has_key b.kind b.layout_id b.id a ≡ false
  has_key_sym a b h = ground (arith, str_eq_iff a.id b.id, str_eq_iff b.id a.id)

  module _ (time : PosixTime T) (now : T) where
    any-put_item :
        (p : UnsafeItem T → Bool) (new : UnsafeItem T) (items : UnsafeItems T)
        → p new ≡ false
        → any p items ≡ false
        → any p (put_item time now new items) ≡ false
    unfolding put_item
    any-put_item p new [] hn h = ground arith
    any-put_item p new (item ∷ items) hn h = ground (arith, any-put_item p new items)

    put_item-HasUniqueKeys :
        (new : UnsafeItem T) (items : UnsafeItems T)
        → HasUniqueKeys items
        → HasUniqueKeys (put_item time now new items)
    unfolding put_item
    put_item-HasUniqueKeys new [] h = (refl, tt)
    put_item-HasUniqueKeys new (item ∷ items) h =
        elim (Bool-cases (has_key new.kind new.layout_id new.id item)) [
          | inl here ↦ rw here (
            any_congr (has_key new.kind new.layout_id new.id)
                  (has_key item.kind item.layout_id item.id) items
                  (λ other. sym (has_key_trans new item other here))
                ∙ h.0,
            h.1,
          )
          | inr other ↦ rw other (
            any-put_item (has_key item.kind item.layout_id item.id) new items
                (has_key_sym new item other) h.0,
            put_item-HasUniqueKeys new items h.1,
          )
        ]

    cleanup_expired-HasUniqueKeys :
        (items : UnsafeItems T)
        → HasUniqueKeys items
        → HasUniqueKeys (cleanup_expired time now items)
    unfolding cleanup_expired
    cleanup_expired-HasUniqueKeys items h = filter-HasUniqueKeys (is_live time now) items h

    -- Whatever is added, removed or asked for, no two items of the store share their type, layout
    -- and id.
    pub operations-HasUniqueKeys :
        (items : UnsafeItems T) (kind : UnsafeItemType) (code layout_id ttl : ℤ)
        (id reason : String)
        → HasUniqueKeys items
        → HasUniqueKeys (add_unsafe_item time now kind code layout_id id reason ttl items)
          × HasUniqueKeys (add_unsafe_widget time now code id reason ttl items)
          × HasUniqueKeys (remove_unsafe_layout time now layout_id items)
          × HasUniqueKeys (is_unsafe_layout time now layout_id items).1
          × HasUniqueKeys (is_unsafe_media time now id items).1
          × HasUniqueKeys (is_unsafe_widget time now id items).1
    unfolding add_unsafe_item add_unsafe_widget remove_unsafe_layout is_unsafe_layout
        is_unsafe_media is_unsafe_widget
    operations-HasUniqueKeys items kind code layout_id ttl id reason h =
        let live = cleanup_expired-HasUniqueKeys items h in
        (
          put_item-HasUniqueKeys _ _ live,
          put_item-HasUniqueKeys _ _ live,
          filter-HasUniqueKeys _ _ live,
          live,
          live,
          live,
        )

  module _ (time : PosixTime T) where
    any-put_item_self :
        (now : T) (p : UnsafeItem T → Bool) (new : UnsafeItem T) (items : UnsafeItems T)
        → p new ≡ true
        → any p (put_item time now new items) ≡ true
    unfolding put_item
    any-put_item_self now p new [] h = ground arith
    any-put_item_self now p new (item ∷ items) h = ground (arith, any-put_item_self now p new items)

    any-filter_and :
        (p q : UnsafeItem T → Bool) (items : UnsafeItems T)
        → any p (filter q items) ≡ any (λ item. q item && p item) items
    any-filter_and p q [] = refl
    any-filter_and p q (item ∷ items) = ground (arith, any-filter_and p q items)

    any-put_item_ne :
        (now : T) (p : UnsafeItem T → Bool) (new : UnsafeItem T) (items : UnsafeItems T)
        → p new ≡ false
        → ((item : UnsafeItem T)
            → has_key new.kind new.layout_id new.id item ≡ true
            → p item ≡ false)
        → any p (put_item time now new items) ≡ any p items
    unfolding put_item
    any-put_item_ne now p new [] h k = ground arith
    any-put_item_ne now p new (item ∷ items) h k =
        ground (arith, k item, any-put_item_ne now p new items h k)

    -- An item that was added at `now` flags its layout at any `later` time at which it has not
    -- expired, a ttl of 0 counting as the default of a day.
    is_unsafe_layout-add_self :
        (now later : T) (kind : UnsafeItemType) (code layout_id ttl : ℤ) (id reason : String)
        (items : UnsafeItems T)
        → time.le (time.add_seconds now (if ttl ==ℤ pos 0 then default_unsafe_ttl else ttl)) later
          ≡ false
        → (is_unsafe_layout time later layout_id
            (add_unsafe_item time now kind code layout_id id reason ttl items)).0
          ≡ true
    unfolding is_unsafe_layout add_unsafe_item
    is_unsafe_layout-add_self now later kind code layout_id ttl id reason items alive =
        any-filter_and (λ item. item.layout_id ==ℤ layout_id) (is_live time later) _
        ∙ any-put_item_self now _ _ (cleanup_expired time now items)
            (ground (arith, ==ℤ_refl layout_id))

    -- Adding an item for one layout does not change, at any later time, the answer for a layout of
    -- another id.
    pub is_unsafe_layout-add_other :
        (now later : T) (kind : UnsafeItemType) (code layout_id ttl other : ℤ) (id reason : String)
        (items : UnsafeItems T)
        → layout_id ≢ other
        → (is_unsafe_layout time later other
            (add_unsafe_item time now kind code layout_id id reason ttl items)).0
          ≡ (is_unsafe_layout time later other (cleanup_expired time now items)).0
    unfolding is_unsafe_layout add_unsafe_item
    is_unsafe_layout-add_other now later kind code layout_id ttl other id reason items ne =
        any-filter_and (λ item. item.layout_id ==ℤ other) (is_live time later) _
        ∙ any-put_item_ne now _ _ (cleanup_expired time now items)
            (ground (arith, ==ℤ_iff layout_id other))
            (λ item h.
              ground (arith, ==ℤ_iff item.layout_id layout_id, ==ℤ_iff item.layout_id other))
        ∙ sym (any-filter_and (λ item. item.layout_id ==ℤ other) (is_live time later) _)

    any-and_other :
        (p q r : UnsafeItem T → Bool) (b : Bool) (items : UnsafeItems T)
        → ((item : UnsafeItem T) → (q item && p item) ≡ (b && p item))
        → any (λ item. q item && (r item && p item)) items
          ≡ (b && any (λ item. r item && p item) items)
    any-and_other p q r b [] h = ground arith
    any-and_other p q r b (item ∷ items) h = ground (arith, h item, any-and_other p q r b items h)

    -- After removeUnsafeLayout, at any later time, the layout is not flagged, and a layout of another
    -- id is flagged exactly if it would be without the removal.
    pub is_unsafe_layout-remove :
        (now later : T) (layout_id other : ℤ) (items : UnsafeItems T)
        → (is_unsafe_layout time later other (remove_unsafe_layout time now layout_id items)).0 ≡ (
            not (layout_id ==ℤ other)
            && (is_unsafe_layout time later other (cleanup_expired time now items)).0)
    unfolding is_unsafe_layout remove_unsafe_layout
    is_unsafe_layout-remove now later layout_id other items =
        any-filter_and (λ item. item.layout_id ==ℤ other) (is_live time later) _
        ∙ any-filter_and _ (λ item. not (item.layout_id ==ℤ layout_id)) _
        ∙ any-and_other (λ item. item.layout_id ==ℤ other)
            (λ item. not (item.layout_id ==ℤ layout_id)) (is_live time later)
            (not (layout_id ==ℤ other)) (cleanup_expired time now items) (λ item. ground arith)
        ∙ ap (◌&&◌ (not (layout_id ==ℤ other)))
            (sym (any-filter_and (λ item. item.layout_id ==ℤ other) (is_live time later) _))
