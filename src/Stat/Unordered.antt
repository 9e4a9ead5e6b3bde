-- ===== src/Stat/Unordered.antt =====
-- What is read from the rows of the table does not depend on their order, but for the order.
use xibo_linux.Base.{◌≡◌, refl, sym, ap, ◌∙◌, arith, Option, none, some, List, ◌∷◌, ℤ}
use mathlib.Core.List.{Permᴰ}
use mathlib.Core.List.Permᴰ
use xibo_linux.DateTime.{PosixTime}
use xibo_linux.Stat.{
  Outcome, threw, returned, and_then, PlayingRecord, RecordDto, Row, Sqlite, TimeT,
  create_playing_record,
}
use xibo_linux.Stat.Recorder.{keep_dto, dto_of_row, dtos_of_rows, create_records}

pub and_then-inversion :
    {A B : Type 0} (o : Outcome A) (next : A → Outcome B) (b : B)
    → and_then o next ≡ returned b
    → (a : A) × (o ≡ returned a) × (next a ≡ returned b)
unfolding and_then
and_then-inversion (threw what) next b e = absurd (ground arith)
and_then-inversion (returned a) next b e = (a, refl, e)

module _ {T D : Type 0} (time : PosixTime T) (clock : TimeT T) (sqlite : Sqlite D) where
  keep_dto-Perm :
      (x y : Option (RecordDto T)) {xs ys : List (RecordDto T)}
      → x ≡ y
      → Permᴰ xs ys
      → Permᴰ (keep_dto time clock sqlite x xs) (keep_dto time clock sqlite y ys)
  unfolding keep_dto
  keep_dto-Perm none none e p = p
  keep_dto-Perm none (some y) e p = absurd (ground arith)
  keep_dto-Perm (some x) none e p = absurd (ground arith)
  keep_dto-Perm (some x) (some y) e p = Permᴰ.cons (ground arith) p

  keep_dto-swap :
      (x y : Option (RecordDto T)) (xs : List (RecordDto T))
      → Permᴰ
          (keep_dto time clock sqlite x (keep_dto time clock sqlite y xs))
          (keep_dto time clock sqlite y (keep_dto time clock sqlite x xs))
  unfolding keep_dto
  keep_dto-swap none y xs = Permᴰ.refl _
  keep_dto-swap (some x) none xs = Permᴰ.refl _
  keep_dto-swap (some x) (some y) xs = Permᴰ.swap refl refl

  pub dtos_of_rows-Perm :
      {xs ys : List (ℤ × Row)}
      → Permᴰ xs ys
      → Permᴰ (dtos_of_rows time clock sqlite xs) (dtos_of_rows time clock sqlite ys)
  unfolding dtos_of_rows
  dtos_of_rows-Perm Permᴰ.nil = Permᴰ.nil
  dtos_of_rows-Perm (Permᴰ.cons e p) =
      keep_dto-Perm _ _ (ap (dto_of_row time clock sqlite) e) (dtos_of_rows-Perm p)
  dtos_of_rows-Perm (Permᴰ.swap {a = a} {b = b} {a' = a'} {b' = b'} {l = l} e f) =
      Permᴰ.trans
        (keep_dto-swap (dto_of_row time clock sqlite a) (dto_of_row time clock sqlite b) _)
        (keep_dto-Perm _ _ (ap (dto_of_row time clock sqlite) f)
          (keep_dto-Perm _ _ (ap (dto_of_row time clock sqlite) e) (Permᴰ.refl _)))
  dtos_of_rows-Perm (Permᴰ.trans p q) = Permᴰ.trans (dtos_of_rows-Perm p) (dtos_of_rows-Perm q)

  created :
      (x : RecordDto T) (xs : List (RecordDto T)) (rs : List (PlayingRecord T))
      → create_records time clock sqlite (x ∷ xs) ≡ returned rs
      → (r : PlayingRecord T) × (rest : List (PlayingRecord T)) × (create_playing_record x
          ≡ returned r)
        × (create_records time clock sqlite xs ≡ returned rest)
        × (r ∷ rest ≡ rs)
  unfolding create_records
  created x xs rs e =
      let (r, here, more) = and_then-inversion (create_playing_record x) _ rs e in
      let (rest, there, last) =
        and_then-inversion (create_records time clock sqlite xs) _ rs more in
      (r, rest, here, there, ground arith)

  creates :
      (x : RecordDto T) (xs : List (RecordDto T)) (r : PlayingRecord T)
      (rest : List (PlayingRecord T))
      → create_playing_record x ≡ returned r
      → create_records time clock sqlite xs ≡ returned rest
      → create_records time clock sqlite (x ∷ xs) ≡ returned (r ∷ rest)
  unfolding create_records and_then
  creates x xs r rest here there = rw (here, there)

  pub create_records-Perm :
      {xs ys : List (RecordDto T)} (rs : List (PlayingRecord T))
      → Permᴰ xs ys
      → create_records time clock sqlite xs ≡ returned rs
      → (ss : List (PlayingRecord T)) × (create_records time clock sqlite ys ≡ returned ss)
        × Permᴰ rs ss
  create_records-Perm rs Permᴰ.nil e = (rs, e, Permᴰ.refl rs)
  create_records-Perm rs (Permᴰ.cons {a = a} {b = b} {l₁ = xs} {l₂ = ys} same p) e =
      let (r, rest, here, there, whole) = created a xs rs e in
      let (ss, runs, perm) = create_records-Perm rest p there in
      (
        r ∷ ss,
        creates b ys r ss (ap create_playing_record (sym same) ∙ here) runs,
        rw (← whole) (Permᴰ.cons refl perm),
      )
  create_records-Perm rs (Permᴰ.swap {a = a} {b = b} {a' = a'} {b' = b'} {l = l} e₁ e₂) e =
      let (r, rest, here, there, whole) = created a (b ∷ l) rs e in
      let (q, last, here', there', whole') = created b l rest there in
      (
        q ∷ r ∷ last,
        creates a' (b' ∷ l) q (r ∷ last) (ap create_playing_record (sym e₂) ∙ here')
            (creates b' l r last (ap create_playing_record (sym e₁) ∙ here) there'),
        rw (← whole, ← whole') (Permᴰ.swap refl refl),
      )
  create_records-Perm rs (Permᴰ.trans p q) e =
      let (ss, runs, perm) = create_records-Perm rs p e in
      let (ts, runs', perm') = create_records-Perm ss q runs in (ts, runs', Permᴰ.trans perm perm')
