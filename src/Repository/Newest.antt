-- ===== src/Repository/Newest.antt =====
-- `ORDER BY created_at DESC`, which both listings have.
use go_with_me.Base.{
  ℕ, suc, Bool, List, [], ◌∷◌, ◌≡◌, refl, arith, leb, if◌then◌else◌, count, keep, length,
}

module _ {A : Type 0} (created_at : A → ℕ) where
  abbrev pub insert_newest : A → List A → List A
  insert_newest a [] = a ∷ []
  insert_newest a (b ∷ bs) =
      let rest = insert_newest a bs in
      if leb (created_at b) (created_at a) then a ∷ b ∷ bs else b ∷ rest

  -- Rows of one instant stay in the order of the table.
  abbrev pub newest_first : List A → List A
  newest_first [] = []
  newest_first (a ∷ bs) = insert_newest a (newest_first bs)

  length-insert_newest : (a : A) (bs : List A) → length (insert_newest a bs) ≡ suc (length bs)
  length-insert_newest a [] = refl
  length-insert_newest a (b ∷ bs) = ground (arith, length-insert_newest a bs)

  pub length-newest_first : (bs : List A) → length (newest_first bs) ≡ length bs
  length-newest_first [] = refl
  length-newest_first (a ∷ bs) =
      ground (arith, length-insert_newest a (newest_first bs), length-newest_first bs)

pub length-keep : {A : Type 0} (p : A → Bool) (bs : List A) → length (keep p bs) ≡ count p bs
length-keep p [] = refl
length-keep p (b ∷ bs) = ground (arith, length-keep p bs)
