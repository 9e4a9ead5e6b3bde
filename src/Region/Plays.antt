-- ===== src/Region/Plays.antt =====
-- Which media of a list play, and what a write through mediaList_[i] does to that.
use xibo_linux.Base.{
  ℕ, zero, suc, ◌<◌, ◌≡◌, refl, ap, Bool, true, false, not, ◌&&◌, ◌||◌, none, some, List, [], ◌∷◌,
  arith, ltb, length, get_elem?, all, is_empty,
}
use xibo_linux.Media.{Media}
use xibo_linux.Region.{Region, set_at}

abbrev pub none_plays : {T : Type 0} → List (Media T) → Bool
none_plays = all (λ media. not media.player.playing)

-- No medium but the one at the index plays.
abbrev pub only_plays : {T : Type 0} → ℕ → List (Media T) → Bool
only_plays index [] = true
only_plays zero (media ∷ rest) = none_plays rest
only_plays (suc index) (media ∷ rest) = not media.player.playing && only_plays index rest

-- The current index is one of the list, or the list is empty.
abbrev pub in_range : {T : Type 0} → Region T → Bool
in_range r = is_empty r.media_list || ltb r.current_media_index (length r.media_list)

abbrev pub is_ordered : {T : Type 0} → Region T → Bool
is_ordered r = in_range r && only_plays r.current_media_index r.media_list

module _ {T : Type 0} where
  pub none-only :
      (index : ℕ) (list : List (Media T)) → none_plays list ≡ true → only_plays index list ≡ true
  none-only index [] h = refl
  none-only zero (media ∷ rest) h = ground arith
  none-only (suc index) (media ∷ rest) h = ground (arith, none-only index rest)

  pub set_at-only_plays :
      (index : ℕ) (list : List (Media T)) (new : Media T)
      → none_plays list ≡ true
      → only_plays index (set_at list index new) ≡ true
  set_at-only_plays index [] new h = refl
  set_at-only_plays zero (media ∷ rest) new h = ground arith
  set_at-only_plays (suc index) (media ∷ rest) new h =
      ground (arith, set_at-only_plays index rest new)

  pub set_at-same :
      (index : ℕ) (list : List (Media T)) (new : Media T)
      → only_plays index (set_at list index new) ≡ only_plays index list
  set_at-same index [] new = refl
  set_at-same zero (media ∷ rest) new = refl
  set_at-same (suc index) (media ∷ rest) new = ground (arith, set_at-same index rest new)

  pub set_at-none_plays :
      (index : ℕ) (list : List (Media T)) (new : Media T)
      → only_plays index list ≡ true
      → new.player.playing ≡ false
      → none_plays (set_at list index new) ≡ true
  set_at-none_plays index [] new h k = refl
  set_at-none_plays zero (media ∷ rest) new h k = ground arith
  set_at-none_plays (suc index) (media ∷ rest) new h k =
      ground (arith, set_at-none_plays index rest new)

  pub only_plays-missing :
      (index : ℕ) (list : List (Media T))
      → only_plays index list ≡ true
      → get_elem? list index ≡ none
      → none_plays list ≡ true
  only_plays-missing index [] h k = refl
  only_plays-missing zero (media ∷ rest) h k = absurd (ground arith)
  only_plays-missing (suc index) (media ∷ rest) h k = ground (arith, only_plays-missing index rest)

  pub only_plays-idle :
      (index : ℕ) (list : List (Media T)) (media : Media T)
      → only_plays index list ≡ true
      → get_elem? list index ≡ some media
      → media.player.playing ≡ false
      → none_plays list ≡ true
  only_plays-idle index [] media h k idle = refl
  only_plays-idle zero (x ∷ rest) media h k idle = ground arith
  only_plays-idle (suc index) (x ∷ rest) media h k idle =
      ground (arith, only_plays-idle index rest media)

  pub length-set_at :
      (list : List (Media T)) (index : ℕ) (new : Media T)
      → length (set_at list index new) ≡ length list
  length-set_at [] index new = refl
  length-set_at (media ∷ rest) zero new = refl
  length-set_at (media ∷ rest) (suc index) new = ap suc (length-set_at rest index new)

  pub is_empty-set_at :
      (list : List (Media T)) (index : ℕ) (new : Media T)
      → is_empty (set_at list index new) ≡ is_empty list
  is_empty-set_at [] index new = refl
  is_empty-set_at (media ∷ rest) zero new = refl
  is_empty-set_at (media ∷ rest) (suc index) new = refl

  pub get_elem?-bound :
      (list : List (Media T)) (index : ℕ) (media : Media T)
      → get_elem? list index ≡ some media
      → index < length list
  get_elem?-bound [] index media h = absurd (ground arith)
  get_elem?-bound (x ∷ rest) zero media h = omega arith
  get_elem?-bound (x ∷ rest) (suc index) media h = omega (arith, get_elem?-bound rest index media h)
