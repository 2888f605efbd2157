-- ===== src/Examples/Searches.antt =====
-- The tasks above a task, in a graph with a cycle.
use dag_doctor.Base.{Text, codes, some, List, [], ◌∷◌, has_text, true, ◌≡◌, ◌↔◌, refl}
use dag_doctor.Tools.Upstream.{Edges, parents_of, search, upstream_of}
use dag_doctor.Tools.Upstream.Rounds.{enough}
use dag_doctor.Tools.Upstream.Ancestors.{IsAncestor, upstream_of-IsAncestor}

abbrev tasks : List Edges
tasks =
    record { parent = (codes "extract"); children = (codes "clean") ∷ [] }
    ∷ record { parent = (codes "clean"); children = (codes "load") ∷ [] }
    ∷ record { parent = (codes "load"); children = (codes "clean") ∷ (codes "publish") ∷ [] }
    ∷ record { parent = (codes "publish"); children = [] }
    ∷ []

above_load :
    upstream_of tasks 9 (codes "load")
    ≡ some ((codes "load") ∷ (codes "extract") ∷ (codes "clean") ∷ [])
unfolding upstream_of search parents_of
above_load = refl

upstream_of-IsAncestor_example :
    (found : List Text) × (upstream_of tasks (enough tasks (codes "load")) (codes "load")
      ≡ some found)
    × ((x : Text) → (has_text x found ≡ true) ↔ IsAncestor tasks (codes "load") x)
upstream_of-IsAncestor_example = upstream_of-IsAncestor tasks (codes "load")
