-- ===== src/Bootstrap/Database/RoundRobin.antt =====
-- In which order `Read` picks the replicas.
use native.Mathlib.Nat.{
  add-mul-mod_self_left, mod-add-div, mod-eq_of_lt, mod-add-div, mod-lt, mul-suc,
}
use go_with_me.Base.{
  ℕ, zero, suc, ◌+◌, ◌-◌, ◌*◌, ◌/◌, ◌%◌, ◌^◌, ◌≤◌, ◌<◌, Option, some, List, [], ◌∷◌, ◌++◌, ◌≡◌,
  refl, sym, ap, ◌∙◌, arith, map, length, get_elem?, take, drop, take-all,
}
use go_with_me.Bootstrap.Database.{Db, read_pool, pick}

-- The answers to `k` calls of `Read`, one after the other.
abbrev pub picks : ℕ → Db → List (Option ℕ)
picks zero db = []
picks (suc k) db = (read_pool db).0 ∷ picks k (read_pool db).1

take-drop :
    {A : Type 0} (k r : ℕ) (xs : List A)
    → r < length xs
    → map some (take (suc k) (drop r xs)) ≡ get_elem? xs r ∷ map some (take k (drop (suc r) xs))
take-drop k r [] h = absurd (omega arith)
take-drop k zero (x ∷ xs) h = refl
take-drop k (suc r) (x ∷ xs) h = take-drop k r xs (omega arith)

abbrev advance : ℕ → Db → Db
advance k db = record db { rr = db.rr + k }

pick_next :
    (db : Db) (xs : List ℕ)
    → 0 < length xs
    → db.rr + 1 < 2 ^ 64
    → pick db xs ≡ (get_elem? xs (db.rr % length xs), advance 1 db)
pick_next db [] some_replica small = absurd (omega arith)
pick_next db (r ∷ rs) some_replica small =
    let next : (db.rr + 1) % 2 ^ 64 ≡ db.rr + 1 = omega arith in
    let back : (db.rr + 1 + 2 ^ 64 - 1) % 2 ^ 64 ≡ db.rr = omega arith in rw (next, back) refl

-- As long as the end of the list is not passed; `q` counts the rounds before.
picks_within :
    (k r q : ℕ) (db : Db)
    → db.rr ≡ r + length db.read * q
    → r + k ≤ length db.read
    → db.rr + k < 2 ^ 64
    → picks k db ≡ map some (take k (drop r db.read))
unfolding read_pool
picks_within zero r q db at le small = refl
picks_within (suc k) r q db at le small =
    let index : db.rr % length db.read ≡ r =
      ap (λ (n : ℕ). n % length db.read) at
      ∙ add-mul-mod_self_left r (length db.read) q
      ∙ mod-eq_of_lt (omega arith) in
    let step = pick_next db db.read (omega arith) (omega arith) in
    let rest = picks_within k (suc r) q (advance 1 db) (omega arith) (omega arith) (omega arith) in
    simp (step, index, rest) (sym (take-drop k r db.read (omega arith)))

picks-append :
    (j k : ℕ) (db : Db)
    → 0 < length db.read
    → db.rr + j < 2 ^ 64
    → picks (j + k) db ≡ picks j db ++ picks k (advance j db)
unfolding read_pool
picks-append zero k db some_replica small =
    let none_yet : 0 + k ≡ k = omega arith in
    let here : db.rr + 0 ≡ db.rr = omega arith in rw (none_yet, here) refl
picks-append (suc j) k db some_replica small =
    let one_more : suc j + k ≡ suc (j + k) = omega arith in
    let further : db.rr + 1 + j ≡ db.rr + suc j = omega arith in
    let step = pick_next db db.read some_replica (omega arith) in
    let rest = picks-append j k (advance 1 db) some_replica (omega arith) in
    rw one_more (simp (step, rest, further))

map-append : {A B : Type 0} (f : A → B) (xs ys : List A) → map f (xs ++ ys) ≡ map f xs ++ map f ys
map-append f [] ys = refl
map-append f (x ∷ xs) ys = ap (λ t. f x ∷ t) (map-append f xs ys)

length-drop : {A : Type 0} (r : ℕ) (xs : List A) → length (drop r xs) ≡ length xs - r
length-drop zero xs = omega arith
length-drop (suc r) [] = omega arith
length-drop (suc r) (x ∷ xs) = omega (arith, length-drop r xs)

-- Where there are replicas and the counter does not wrap around meanwhile: as many calls of `Read`
-- as there are replicas answer each of them once, in their order, from the one that the counter
-- stands at and round the end of the list.
pub replicas_in_turn :
    (db : Db)
    → 0 < length db.read
    → db.rr + length db.read < 2 ^ 64
    → let start = db.rr % length db.read in
      picks (length db.read) db ≡ map some (drop start db.read ++ take start db.read)
replicas_in_turn db some_replica small =
    let n = length db.read in
    let s = db.rr % n in
    let q = db.rr / n in
    let below : s < n = mod-lt db.rr some_replica in
    let at : db.rr ≡ s + n * q = sym (mod-add-div db.rr n) in
    let whole : n - s + s ≡ n = omega arith in
    let first = picks_within (n - s) s q db at (omega arith) (omega arith) in
    let round : db.rr + (n - s) ≡ 0 + n * suc q = omega (arith, at, mul-suc n q) in
    let second = picks_within s 0 (suc q) (advance (n - s) db) round (omega arith) (omega arith) in
    let split = picks-append (n - s) s db some_replica (omega arith) in
    let to_end = take-all (n - s) (drop s db.read) (omega (arith, length-drop s db.read)) in
    ap (λ (k : ℕ). picks k db) (sym whole)
    ∙ split
    ∙ ap (λ t. t ++ picks s (advance (n - s) db)) (first ∙ ap (λ t. map some t) to_end)
    ∙ ap (λ t. map some (drop s db.read) ++ t) second
    ∙ sym (map-append some (drop s db.read) (take s db.read))
