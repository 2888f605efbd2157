-- ===== src/Examples/Pages.antt =====
-- A table of three rows, two of them of one moment, read two to a page.
use mathlib.Core.List.{Perm}
use dag_doctor.Base.{ℕ, ◌≡◌, refl, arith, none, some, List, [], ◌∷◌, true, Bool, suc, keep, length}
use dag_doctor.Api.Paging.{Key, read_all}
use dag_doctor.Api.Paging.Order.{IsSorted}
use dag_doctor.Api.Paging.Reader.{read_all-listing}

abbrev row : ℕ → ℕ → Key
row moment id = record { moment = moment; id = id }

abbrev table : List Key
table = row 3 1 ∷ row 5 2 ∷ row 3 7 ∷ []

abbrev itself : Key → Key
itself k = k

abbrev every : Key → Bool
every k = true

read_all-listing_example :
    (rows : List Key) × Perm rows table
    × IsSorted itself rows
    × (read_all itself every 2 (suc (length table)) none table ≡ some (keep every rows))
read_all-listing_example =
    read_all-listing itself every 2 table (omega arith) ((refl, (refl, tt)), ((refl, tt), (tt, tt)))
