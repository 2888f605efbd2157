-- ===== src/Api/Paging.antt =====
-- Paging through a listing, newest first (list_incidents in src/dag_doctor/api/v1/routes/incidents.py
-- and list_diagnoses in diagnoses.py). A row has a moment and an id; a cursor carries both.
pub mod Order
pub mod Reader
use dag_doctor.Base.{
  ℕ, zero, suc, ◌+◌, ◌==◌, ltb, leb, Bool, true, false, ◌&&◌, ◌||◌, Option, none, some, List, [],
  ◌∷◌, ◌++◌, keep, length, take, if◌then◌else◌,
}

-- The moment that orders a listing, `received_at` or `created_at`, and the id that breaks ties.
pub record Key : Type 0 where
  pub moment : ℕ
  pub id : ℕ

-- The cursor's condition: strictly behind it in the order of the listing.
unfoldable pub is_behind : Key → Key → Bool
is_behind cursor key =
    ltb key.moment cursor.moment || key.moment == cursor.moment && ltb key.id cursor.id

module _ {ℓ} {A : Type ℓ} (key : A → Key) where
  -- ORDER BY moment DESC, id DESC
  unfoldable pub place : A → List A → List A
  place row [] = row ∷ []
  place row (other ∷ rows) =
      let rest = place row rows in
      if is_behind (key row) (key other) then row ∷ other ∷ rows else other ∷ rest

  unfoldable pub newest_first : List A → List A
  unfolding place
  newest_first [] = []
  newest_first (row ∷ rows) = place row (newest_first rows)

  abbrev pub past : Option Key → List A → List A
  past none rows = rows
  past (some cursor) rows = keep (λ row. is_behind cursor (key row)) rows

  abbrev pub last_key : List A → Option Key
  last_key [] = none
  last_key (row ∷ []) = some (key row)
  last_key (row ∷ next ∷ rows) = last_key (next ∷ rows)

  pub record Page : Type ℓ where
    pub items : List A
    pub next_cursor : Option Key

  -- `rows` are those that `statement.limit(limit + 1)` gives.
  unfoldable pub page_of : ℕ → List A → Page
  page_of limit rows =
      let page = take limit rows in
      record { items = page; next_cursor = if ltb limit (length rows) then last_key page else none }

  -- The route, where `keeps` are the filters that the caller supplied.
  unfoldable pub list_page : (A → Bool) → ℕ → Option Key → List A → Page
  unfolding page_of
  list_page keeps limit cursor table =
      page_of limit (take (limit + 1) (newest_first (past cursor (keep keeps table))))

  joined : List A → Option (List A) → Option (List A)
  joined items none = none
  joined items (some rest) = some (items ++ rest)

  unfoldable pub follow_to : List A → (Key → Option (List A)) → Option Key → Option (List A)
  unfolding joined
  follow_to items read none = some items
  follow_to items read (some next) = joined items (read next)

  abbrev pub follow : (Key → Option (List A)) → Page → Option (List A)
  follow read page = follow_to page.items read page.next_cursor

  -- A reader that follows the cursors, on fuel; `none` means that the fuel ran out.
  unfoldable pub read_all : (A → Bool) → ℕ → ℕ → Option Key → List A → Option (List A)
  unfolding follow_to
  read_all keeps limit zero cursor table = none
  read_all keeps limit (suc fuel) cursor table =
      follow (λ next. read_all keeps limit fuel (some next) table)
        (list_page keeps limit cursor table)
