-- ===== src/UnsafeStore.antt =====
-- control/cache/UnsafeItemStore: the items that failed to play, each for a time. `now` is what
-- DateTime::now() reads during the call. The two lists as text of the class are not modelled.
pub mod Laws
use xibo_linux.Base.{
  ℕ, zero, suc, ◌+◌, ◌-◌, ◌*◌, ◌/◌, ◌%◌, ◌≤◌, ◌<◌, String, ◌≡◌, refl, sym, ap, subst, ◌∙◌, ◌≢◌, ◌↔◌,
  ◌⊎◌, inl, inr, Bool, true, false, not, ◌&&◌, ◌||◌, Option, none, some, List, [], ◌∷◌, ◌++◌, map,
  append_assoc, append-nil, arith, ltb, leb, ◌==◌, if◌then◌else◌, Bool-cases, Option-cases,
  &&-eq-true, ◌>>=◌, is_some, ℤ, pos, negsuc, ◌+ℤ◌, ◌-ℤ◌, ◌≤ℤ◌, ltb_ℤ, leb_ℤ, ◌==ℤ◌, ==ℤ_iff,
  ==ℤ_refl, length, get_elem?, filter, any, all, find, is_empty, filter_idem, filter-append,
  all-filter, filter_of_all, all-append, any-append, length-append, get_elem?_lt, str_eq,
  str_eq_iff, ◌++ₛ◌, contains, to_string, stoi,
}
use xibo_linux.DateTime.{PosixTime}

abbrev pub default_unsafe_ttl : ℤ
default_unsafe_ttl = pos 86400

pub data UnsafeItemType : Type 0 where
  layout region widget media : UnsafeItemType

pub record UnsafeItem (T : Type 0) : Type 0 where
  pub date_time : T
  pub kind : UnsafeItemType
  pub code : ℤ
  pub layout_id : ℤ
  pub id : String
  pub reason : String
  pub ttl : ℤ

abbrev pub type_eq : UnsafeItemType → UnsafeItemType → Bool
type_eq layout layout = true
type_eq region region = true
type_eq widget widget = true
type_eq media media = true
type_eq _ _ = false

abbrev pub UnsafeItems : Type 0 → Type 0
UnsafeItems T = List (UnsafeItem T)

abbrev pub has_key : {T : Type 0} → UnsafeItemType → ℤ → String → UnsafeItem T → Bool
has_key kind layout_id id item =
    type_eq item.kind kind && (item.layout_id ==ℤ layout_id) && str_eq item.id id

module _ {T : Type 0} (time : PosixTime T) (now : T) where
  abbrev pub is_live : UnsafeItem T → Bool
  is_live item = not (time.le (time.add_seconds item.date_time item.ttl) now)

  unfoldable pub cleanup_expired : UnsafeItems T → UnsafeItems T
  cleanup_expired items = filter is_live items

  -- The loop of addUnsafeItem: the first item with the key is replaced, or a new one is appended.
  unfoldable pub put_item : UnsafeItem T → UnsafeItems T → UnsafeItems T
  put_item new [] = new ∷ []
  put_item new (item ∷ items) =
      if has_key new.kind new.layout_id new.id item then new ∷ items else item ∷ put_item new items

  unfoldable pub add_unsafe_item :
      UnsafeItemType → ℤ → ℤ → String → String → ℤ → UnsafeItems T → UnsafeItems T
  unfolding put_item cleanup_expired
  add_unsafe_item kind code layout_id id reason ttl items =
      put_item
        (record {
          date_time = now;
          kind = kind;
          code = code;
          layout_id = layout_id;
          id = id;
          reason = reason;
          ttl = if ttl ==ℤ pos 0 then default_unsafe_ttl else ttl;
        })
        (cleanup_expired items)

  unfoldable pub add_unsafe_widget : ℤ → String → String → ℤ → UnsafeItems T → UnsafeItems T
  unfolding add_unsafe_item
  add_unsafe_widget code widget_id reason ttl items =
      add_unsafe_item widget code (pos 0) widget_id reason ttl items

  unfoldable pub remove_unsafe_layout : ℤ → UnsafeItems T → UnsafeItems T
  unfolding cleanup_expired
  remove_unsafe_layout layout_id items =
      filter (λ item. not (item.layout_id ==ℤ layout_id)) (cleanup_expired items)

  -- The queries clean up first, so each returns the store as well.
  unfoldable pub is_unsafe_layout : ℤ → UnsafeItems T → Bool × UnsafeItems T
  unfolding cleanup_expired
  is_unsafe_layout layout_id items =
      let live = cleanup_expired items in (any (λ item. item.layout_id ==ℤ layout_id) live, live)

  unfoldable pub is_unsafe_media : String → UnsafeItems T → Bool × UnsafeItems T
  unfolding cleanup_expired
  is_unsafe_media media_id items =
      let live = cleanup_expired items in
      (any (λ item. type_eq item.kind media && str_eq item.id media_id) live, live)

  unfoldable pub is_unsafe_widget : String → UnsafeItems T → Bool × UnsafeItems T
  unfolding cleanup_expired
  is_unsafe_widget widget_id items =
      let live = cleanup_expired items in
      (any (λ item. type_eq item.kind widget && str_eq item.id widget_id) live, live)
