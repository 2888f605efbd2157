-- ===== src/Api/Paging/Reader.antt =====
-- About a reader that follows the cursors of a listing (src/dag_doctor/api/v1/routes).
use mathlib.Core.List.{Perm}
use dag_doctor.Base.{
  ℕ, zero, suc, ◌+◌, ◌-◌, ◌≤◌, ◌<◌, ltb, Bool, true, false, Option, none, some, List, [], ◌∷◌, ◌++◌,
  keep, length, length-keep-le, length-take, length-drop, take, take-take, take-long,
  take-append-drop, drop, ◌≡◌, ap, sym, subst, ◌∙◌, refl, arith, Bool-cases, inl, inr,
}
use dag_doctor.Api.Paging.{
  Key, is_behind, newest_first, past, last_key, page_of, list_page, follow, read_all,
}
use dag_doctor.Api.Paging.Order.{
  behind_trans, behind_irrefl, behind_asym, AllBehind, IsSorted, UniqueIds, keep-AllBehind,
  keep-newest_first, newest_first-IsSorted, newest_first-perm, length-newest_first, keep-UniqueIds,
}

module _ {ℓ} {A : Type ℓ} (key : A → Key) where
  abbrev behind : Key → A → Bool
  behind k row = is_behind k (key row)

  keep-all : (k : Key) (xs : List A) → AllBehind key k xs → keep (behind k) xs ≡ xs
  keep-all k [] h = refl
  keep-all k (x ∷ xs) h = rw h.0 (ap (λ t. x ∷ t) (keep-all k xs h.1))

  keep-behind : (k : Key) (xs : List A) → AllBehind key k (keep (behind k) xs)
  keep-behind k [] = tt
  keep-behind k (x ∷ xs) = elim (Bool-cases (is_behind k (key x))) [
    | inl e ↦ rw e (e, keep-behind k xs)
    | inr e ↦ rw e (keep-behind k xs)
  ]

  -- What is behind the later cursor is behind the earlier one.
  keep-keep :
      (c k : Key) (xs : List A)
      → is_behind c k ≡ true
      → keep (behind k) (keep (behind c) xs) ≡ keep (behind k) xs
  keep-keep c k [] h = refl
  keep-keep c k (x ∷ xs) h = elim (Bool-cases (is_behind k (key x))) [
    | inl e ↦ rw (behind_trans c k (key x) h e, e) (ap (λ t. x ∷ t) (keep-keep c k xs h))
    | inr e ↦ elim (Bool-cases (is_behind c (key x))) [
      | inl g ↦ rw (g, e) (keep-keep c k xs h)
      | inr g ↦ rw (g, e) (keep-keep c k xs h)
    ]
  ]

  keep-IsSorted : (p : A → Bool) (xs : List A) → IsSorted key xs → IsSorted key (keep p xs)
  keep-IsSorted p [] s = tt
  keep-IsSorted p (x ∷ xs) s = elim (Bool-cases (p x)) [
    | inl e ↦ rw e (keep-AllBehind key p (key x) xs s.0, keep-IsSorted p xs s.1)
    | inr e ↦ rw e (keep-IsSorted p xs s.1)
  ]

  -- The cursor after `n + 1` rows of a sorted list stands for the rows that follow.
  last_key-take :
      (n : ℕ) (xs : List A)
      → IsSorted key xs
      → n < length xs
      → (k : Key) × (last_key key (take (suc n) xs) ≡ some k)
        × (keep (behind k) xs ≡ drop (suc n) xs)
        × ((c : Key) → AllBehind key c xs → is_behind c k ≡ true)
  last_key-take n [] s h = absurd (omega arith)
  last_key-take zero (x ∷ xs) s h =
      (key x, refl, rw (behind_irrefl (key x)) (keep-all (key x) xs s.0), λ c all. all.0)
  last_key-take (suc n) (x ∷ []) s h = absurd (omega arith)
  last_key-take (suc n) (x ∷ y ∷ ys) s h =
      let (k, last, kept, within) = last_key-take n (y ∷ ys) s.1 (omega arith) in
      let early = behind_asym (key x) k (within (key x) s.0) in
      (k, last, rw early kept, λ c all. within c all.1)

  page_of-short :
      (m : ℕ) (xs : List A)
      → length xs ≤ m
      → page_of key m (take (m + 1) xs) ≡ record { items = xs; next_cursor = none }
  unfolding page_of
  page_of-short m xs h =
      let whole = take-long (m + 1) xs (omega arith) in
      let over : ltb m (length xs) ≡ false = ground arith in rw (whole, over, take-long m xs h) refl

  page_of-long :
      (m : ℕ) (xs : List A)
      → m < length xs
      → page_of key m (take (m + 1) xs)
        ≡ record { items = take m xs; next_cursor = last_key key (take m xs) }
  unfolding page_of
  page_of-long m xs h =
      let size = length-take (m + 1) xs in
      let over : ltb m (length (take (m + 1) xs)) ≡ true = ground arith in
      rw (over, take-take m (m + 1) xs (omega arith)) refl

  module _ (keeps : A → Bool) (n : ℕ) (table : List A) (unique : UniqueIds key table) where
    -- The whole listing, and what is left of it at a cursor.
    abbrev listing : List A
    listing = keep keeps (newest_first key table)

    abbrev left : Option Key → List A
    left cursor = past key cursor listing

    listing-IsSorted : IsSorted key listing
    listing-IsSorted =
        keep-IsSorted keeps (newest_first key table) (newest_first-IsSorted key table unique)

    left-IsSorted : (cursor : Option Key) → IsSorted key (left cursor)
    left-IsSorted none = listing-IsSorted
    left-IsSorted (some k) = keep-IsSorted (behind k) listing listing-IsSorted

    -- The order and the conditions of the query commute.
    query-left :
        (cursor : Option Key) → newest_first key (past key cursor (keep keeps table)) ≡ left cursor
    query-left none = keep-newest_first key keeps table unique
    query-left (some k) =
        keep-newest_first key (behind k) (keep keeps table) (keep-UniqueIds key keeps table unique)
        ∙ ap (keep (behind k)) (keep-newest_first key keeps table unique)

    left-advance :
        (cursor : Option Key) (k : Key)
        → ((c : Key) → AllBehind key c (left cursor) → is_behind c k ≡ true)
        → left (some k) ≡ keep (behind k) (left cursor)
    left-advance none k within = refl
    left-advance (some c) k within = sym (keep-keep c k listing (within c (keep-behind c listing)))

    list_page-left :
        (cursor : Option Key)
        → list_page key keeps (suc n) cursor table
          ≡ page_of key (suc n) (take (suc n + 1) (left cursor))
    unfolding list_page
    list_page-left cursor = rw (query-left cursor) refl

    read_all-last :
        (fuel : ℕ) (cursor : Option Key) (xs : List A)
        → list_page key keeps (suc n) cursor table ≡ record { items = xs; next_cursor = none }
        → read_all key keeps (suc n) (suc fuel) cursor table ≡ some xs
    unfolding read_all
    read_all-last fuel cursor xs e =
        ap (follow key (λ next. read_all key keeps (suc n) fuel (some next) table)) e

    read_all-more :
        (fuel : ℕ) (cursor : Option Key) (k : Key) (xs ys : List A)
        → list_page key keeps (suc n) cursor table ≡ record { items = xs; next_cursor = some k }
        → read_all key keeps (suc n) fuel (some k) table ≡ some ys
        → read_all key keeps (suc n) (suc fuel) cursor table ≡ some (xs ++ ys)
    unfolding read_all
    read_all-more fuel cursor k xs ys e rest =
        ap (follow key (λ next. read_all key keeps (suc n) fuel (some next) table)) e ∙ rw rest

    read_all-left :
        (fuel : ℕ) (cursor : Option Key)
        → length (left cursor) < fuel
        → read_all key keeps (suc n) fuel cursor table ≡ some (left cursor)
    read_all-left zero cursor h = absurd (omega arith)
    read_all-left (suc fuel) cursor h = elim (Bool-cases (ltb (suc n) (length (left cursor)))) [
      | inl more ↦
          let within : n < length (left cursor) = ground arith in
          let (k, last, kept, inside) =
            last_key-take n (left cursor) (left-IsSorted cursor) within in
          let next : left (some k) ≡ drop (suc n) (left cursor) =
            left-advance cursor k inside ∙ kept in
          let fewer = ap length next ∙ length-drop (suc n) (left cursor) in
          let rest = read_all-left fuel (some k) (omega arith) in
          let page =
            list_page-left cursor
            ∙ page_of-long (suc n) (left cursor) (ground arith)
            ∙ ap
                (λ (c : Option Key). record { items = take (suc n) (left cursor); next_cursor = c })
                last in
          read_all-more fuel cursor k (take (suc n) (left cursor)) (left (some k)) page rest
          ∙ ap some (
              ap (λ t. take (suc n) (left cursor) ++ t) next
              ∙ take-append-drop (suc n) (left cursor))
      | inr done ↦
          read_all-last fuel cursor (left cursor)
            (list_page-left cursor ∙ page_of-short (suc n) (left cursor) (ground arith))
    ]

-- Where ids are unique and a page holds at least one row, a reader that follows the cursors from the
-- first page comes to an end within as many pages as the table has rows, and one. It has then read
-- the rows that the filters keep of a rearrangement of the table that is ordered newest first.
pub read_all-listing {ℓ} :
    {A : Type ℓ} (key : A → Key) (keeps : A → Bool) (limit : ℕ) (table : List A)
    → 1 ≤ limit
    → UniqueIds key table
    → (rows : List A) × Perm rows table
      × IsSorted key rows
      × (read_all key keeps limit (suc (length table)) none table ≡ some (keep keeps rows))
read_all-listing key keeps limit table h unique =
    let positive : limit ≡ suc (limit - 1) = omega arith in
    let rows = newest_first key table in
    let few : length (keep keeps rows) < suc (length table) =
      omega (arith, length-keep-le keeps rows, length-newest_first key table) in
    (
      rows,
      newest_first-perm key table,
      newest_first-IsSorted key table unique,
      subst
          (λ (m : ℕ). read_all key keeps m (suc (length table)) none table ≡ some (keep keeps rows))
          (sym positive)
          (read_all-left key keeps (limit - 1) table unique (suc (length table)) none few),
    )
