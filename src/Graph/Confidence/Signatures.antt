-- ===== src/Graph/Confidence/Signatures.antt =====
-- The failure patterns that are recognised from the exception alone (graph/confidence.py,
-- `Signature`, `KNOWN_SIGNATURES` and `match_signature`). A strength is in ten-thousandths.
use dag_doctor.Base.{
  ℕ, ◌==◌, String, Text, ◌||◌, not, Option, none, some, List, [], ◌∷◌, ◌++◌, all, find, codes,
  if◌then◌else◌, ◌≡◌, refl,
}
use dag_doctor.Core.Regex.{
  Regex, char, seq, star, lit, any_of, plus, optional, is_space, is_word, search_match,
}
use dag_doctor.Core.Models.{
  RootCauseCategory, schema_drift, data_quality_regression, upstream_dependency_failure,
  missing_upstream_data, transient_infrastructure, query_defect, type_mismatch, resource_exhaustion,
}

pub record Signature : Type 0 where
  pub name : String
  pub pattern : Regex
  pub category : RootCauseCategory
  pub strength : ℕ

-- `\s+\"?[\w.]+\"?\s+does not exist`
dangling_name : Regex
dangling_name = seq (plus (char is_space)) (
    seq (optional (lit "\"")) (
      seq (plus (char (λ c. is_word c || c == b'.')))
        (seq (optional (lit "\"")) (seq (plus (char is_space)) (lit "does not exist")))))

-- `OperationalError.*server closed`: a dot is any character but a line feed.
closed_server : Regex
closed_server =
    seq (lit "OperationalError") (seq (star (char (λ c. not (c == 10)))) (lit "server closed"))

-- Ordered: the first match wins.
unfoldable pub known_signatures : List Signature
unfolding dangling_name closed_server
known_signatures =
    record {
      name = "undefined_column";
      pattern = any_of (seq (lit "column") dangling_name ∷ lit "UndefinedColumn" ∷ []);
      category = schema_drift;
      strength = 10000;
    }
    ∷ record {
      name = "not_null_violation";
      pattern =
          any_of
            (lit "null value in column" ∷ lit "NotNullViolation" ∷ lit "violates not-null" ∷ []);
      category = data_quality_regression;
      strength = 9000;
    }
    ∷ record {
      name = "type_mismatch";
      pattern = any_of (
          lit "invalid input syntax for type"
          ∷ lit "could not convert"
          ∷ lit "InvalidTextRepresentation"
          ∷ lit "unsupported operand type"
          ∷ []);
      category = type_mismatch;
      strength = 9000;
    }
    ∷ record {
      name = "query_timeout";
      pattern = any_of (
          lit "canceling statement due to statement timeout"
          ∷ lit "QueryCanceled"
          ∷ seq (lit "due to ") (seq (any_of (lit "statement" ∷ lit "lock" ∷ [])) (lit " timeout"))
          ∷ []);
      category = query_defect;
      strength = 7000;
    }
    ∷ record {
      name = "duplicate_key";
      pattern =
          any_of
            (lit "duplicate key value violates unique constraint" ∷ lit "UniqueViolation" ∷ []);
      category = query_defect;
      strength = 7000;
    }
    ∷ record {
      name = "connection_failure";
      pattern = any_of (
          lit "connection refused"
          ∷ lit "could not connect"
          ∷ lit "connection reset"
          ∷ lit "ConnectTimeout"
          ∷ lit "ReadTimeout"
          ∷ lit "ConnectionError"
          ∷ seq (lit "timed out ") (any_of (lit "connecting" ∷ lit "reading" ∷ lit "waiting" ∷ []))
          ∷ lit "connection timed out"
          ∷ closed_server
          ∷ []);
      category = transient_infrastructure;
      strength = 8500;
    }
    ∷ record {
      name = "out_of_memory";
      pattern =
          any_of
            (lit "MemoryError" ∷ lit "out of memory" ∷ lit "Killed process" ∷ lit "OOMKilled" ∷ []);
      category = resource_exhaustion;
      strength = 8000;
    }
    ∷ record {
      name = "upstream_failed";
      pattern = any_of (lit "upstream_failed" ∷ lit "UpstreamFailedError" ∷ []);
      category = upstream_dependency_failure;
      strength = 9000;
    }
    ∷ record {
      name = "missing_relation";
      pattern = any_of (seq (lit "relation") dangling_name ∷ lit "UndefinedTable" ∷ []);
      category = missing_upstream_data;
      strength = 5500;
    }
    ∷ []

abbrev or_empty : Option Text → Text
or_empty none = []
or_empty (some t) = t

-- `" ".join` over two parts, of which the empty ones are dropped.
unfoldable pub join_two : Text → Text → Text
join_two [] t = t
join_two (c ∷ s) [] = c ∷ s
join_two (c ∷ s) (d ∷ t) = (c ∷ s) ++ (32 ∷ (d ∷ t))

unfoldable pub haystack : Option Text → Option Text → Text
unfolding join_two
haystack exception_type message = join_two (or_empty exception_type) (or_empty message)

unfoldable pub match_signature : Option Text → Option Text → Option Signature
unfolding haystack search_match
match_signature exception_type message =
    let found =
      find (λ known. search_match known.pattern (haystack exception_type message))
        known_signatures in
    if all is_space (haystack exception_type message) then none else found

abbrev name_of : Option Signature → Option String
name_of none = none
name_of (some known) = some known.name

undefined_column_test :
    name_of (
      match_signature
        (some (codes "UndefinedColumn"))
        (some (codes "column \"customer_id\" does not exist")))
    ≡ some "undefined_column"
unfolding match_signature known_signatures
undefined_column_test = refl

renamed_table_test :
    name_of (match_signature none (some (codes "relation \"raw.orders\" does not exist")))
    ≡ some "missing_relation"
unfolding match_signature known_signatures
renamed_table_test = refl
