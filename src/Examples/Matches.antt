-- ===== src/Examples/Matches.antt =====
-- Past failures of which one is like the one that is searched for.
use dag_doctor.Base.{
  ◌≡◌, refl, sorted_set, place_name, ℕ, ◌*◌, ◌/◌, codes, none, some, List, [], ◌∷◌,
}
use dag_doctor.Tools.Signature.{
  signature_tokens, normalise_signature, substitute, run_of, uuid_length, exactly_hex, dash_then,
  last_hex, literal_length, number_length, tokens_from, emit,
}
use dag_doctor.Tools.Similar.{Candidate, Diagnosed, SimilarIncidentsInput}

abbrev rounded : ℕ × ℕ → ℕ
rounded (both, all_of) = 1000 * both / all_of

abbrev request : SimilarIncidentsInput
request = record {
  error_signature = codes "UndefinedColumn: column cost does not exist";
  exception_type = none;
  limit = 5;
}

abbrev past : List Candidate
past =
    record {
      incident_id = 1;
      dag_id = codes "sales";
      task_id = codes "load";
      exception_type = some (codes "UndefinedColumn");
      exception_message = some (codes "column price does not exist");
      received_at = 7;
    }
    ∷ record {
      incident_id = 2;
      dag_id = codes "sales";
      task_id = codes "fetch";
      exception_type = some (codes "TimeoutError");
      exception_message = none;
      received_at = 5;
    }
    ∷ []

abbrev diagnoses : List Diagnosed
diagnoses = []

tokens_test :
    signature_tokens (codes "column \"cost_2\" at 0x1F: took 30.5s, Cost_2 missing")
    ≡ codes "column" ∷ codes "cost_2" ∷ codes "missing" ∷ codes "took" ∷ []
unfolding signature_tokens normalise_signature substitute run_of uuid_length exactly_hex dash_then
    last_hex literal_length number_length tokens_from emit sorted_set place_name
tokens_test = refl
