-- ===== src/Examples/Profiles.antt =====
-- A table that is profiled twice.
use dag_doctor.Base.{
  ℕ, ◌*◌, ◌+◌, ltb, ◌≡◌, refl, Text, codes, none, some, List, [], ◌∷◌, sorted_set, Bool, false,
  arith,
}
use dag_doctor.Tools.Sql.{
  TableRef, parse, split_dots, strip, lstrip, rstrip, is_identifier, rest_matches, ref_of,
}
use dag_doctor.Tools.Profile.{
  Warehouse, ProfileTableInput, ProfileRow, wanted, requested_columns, execute,
}
use dag_doctor.Tools.Profile.Again.{SteadyOutcome, execute_steady}

abbrev request : ProfileTableInput
request = record {
  connection = codes "warehouse";
  table = codes "customers";
  columns = none;
  sample_rows = 100;
}

abbrev customers : TableRef
customers = record { schema = none; name = codes "customers" }

abbrev present : List Text
present = codes "region" ∷ codes "email" ∷ []

abbrev warehouse : Warehouse
warehouse = record {
  columns = λ connection ref. some present;
  rows = λ connection ref. 40;
  sampled = λ connection ref size. 40;
  measured = λ connection ref size name. record {
    nulls = 30;
    distinct_count = 4;
    least = none;
    greatest = some (codes "z");
  };
}

-- Whether a fraction has risen by more than a fifth.
abbrev jumped : ℕ × ℕ → ℕ × ℕ → Bool
jumped (a, b) (c, d) = ltb (5 * (a * d) + b * d) (5 * (c * b))

customers_parsed : parse request.table ≡ some customers
unfolding parse split_dots strip lstrip rstrip is_identifier rest_matches ref_of
customers_parsed = refl

all_asked : requested_columns none present ≡ wanted (sorted_set present)
unfolding requested_columns
all_asked = refl

abbrev earlier : List ProfileRow
earlier =
    record {
      connection = codes "warehouse";
      table_name = codes "customers";
      row_count = 30;
      sampled_rows = 30;
      columns = record { name = codes "email"; null_fraction = (1, 30) } ∷ [];
      captured_at = 2;
    }
    ∷ []

steady_jumped : (f : ℕ × ℕ) → jumped f f ≡ false
steady_jumped (a, b) = ground arith

execute_steady_example :
    SteadyOutcome 5
      (execute jumped warehouse request 9 (execute jumped warehouse request 5 earlier).rows).outcome
execute_steady_example =
    execute_steady jumped warehouse request customers present (sorted_set present) 5 9 earlier
      steady_jumped customers_parsed refl all_asked (omega arith, tt)
