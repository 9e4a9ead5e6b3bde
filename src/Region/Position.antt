-- ===== src/Region/Position.antt =====
-- control/region/GetMediaPosition: where a medium stands in its region.
use xibo_linux.Base.{suc, ◌/◌, ◌≡◌, refl, subst, arith, ℤ, pos, negsuc, ◌+ℤ◌, ◌-ℤ◌, ◌≤ℤ◌}
use xibo_linux.Media.{Align, Valign, left, center, right, top, middle, bottom}

-- C++'s division by 2, which rounds to 0.
abbrev pub half : ℤ → ℤ
half (pos n) = pos (n / 2)
half (negsuc n) = pos 0 -ℤ pos (suc n / 2)

unfoldable pub get_media_x : ℤ → ℤ → Align → ℤ
get_media_x region_width width center = half (region_width -ℤ width)
get_media_x region_width width left = pos 0
get_media_x region_width width right = region_width -ℤ width

unfoldable pub get_media_y : ℤ → ℤ → Valign → ℤ
get_media_y region_height height middle = half (region_height -ℤ height)
get_media_y region_height height top = pos 0
get_media_y region_height height bottom = region_height -ℤ height

half-bounds : (n : ℤ) → (pos 0 ≤ℤ n) → (pos 0 ≤ℤ half n) × (half n ≤ℤ n)
half-bounds n h = ground arith

sub-bounds : (a b : ℤ) → (b ≤ℤ a) → (pos 0 ≤ℤ a -ℤ b) × ((a -ℤ b) +ℤ b ≡ a)
sub-bounds a b h = ground arith

add-mono : (a b c : ℤ) → (a ≤ℤ b) → (a +ℤ c ≤ℤ b +ℤ c)
add-mono a b c h = ground arith

get_media_x-bounds :
    (region_width width : ℤ) (align : Align)
    → (pos 0 ≤ℤ width)
    → (width ≤ℤ region_width)
    → (pos 0 ≤ℤ get_media_x region_width width align)
      × (get_media_x region_width width align +ℤ width ≤ℤ region_width)
unfolding get_media_x
get_media_x-bounds region_width width center h k =
    let difference = region_width -ℤ width in
    let (nonneg, whole) = sub-bounds region_width width k in
    let (lower, upper) = half-bounds difference nonneg in
    (
      lower,
      subst (λ total. half difference +ℤ width ≤ℤ total) whole
          (add-mono (half difference) difference width upper),
    )
get_media_x-bounds region_width width left h k = ground arith
get_media_x-bounds region_width width right h k = ground (arith, sub-bounds region_width width)

abbrev as_align : Valign → Align
as_align top = left
as_align middle = center
as_align bottom = right

get_media_y-get_media_x :
    (region_height height : ℤ) (valign : Valign)
    → get_media_x region_height height (as_align valign) ≡ get_media_y region_height height valign
unfolding get_media_x get_media_y
get_media_y-get_media_x region_height height top = refl
get_media_y-get_media_x region_height height middle = refl
get_media_y-get_media_x region_height height bottom = refl

-- A medium that is not larger than its region, and of no negative size, stands inside of it, whatever
-- its alignment.
pub media_position-bounds :
    (region_width region_height width height : ℤ) (align : Align) (valign : Valign)
    → (pos 0 ≤ℤ width)
    → (width ≤ℤ region_width)
    → (pos 0 ≤ℤ height)
    → (height ≤ℤ region_height)
    → (pos 0 ≤ℤ get_media_x region_width width align)
      × (get_media_x region_width width align +ℤ width ≤ℤ region_width)
      × (pos 0 ≤ℤ get_media_y region_height height valign)
      × (get_media_y region_height height valign +ℤ height ≤ℤ region_height)
media_position-bounds region_width region_height width height align valign w ww h hh =
    let (left_in, right_in) = get_media_x-bounds region_width width align w ww in
    let (top_in, bottom_in) =
      subst (λ y. (pos 0 ≤ℤ y) × (y +ℤ height ≤ℤ region_height))
        (get_media_y-get_media_x region_height height valign)
        (get_media_x-bounds region_height height (as_align valign) h hh) in
    (left_in, right_in, top_in, bottom_in)
