-- ===== src/Tools/Upstream/Ancestors.antt =====
-- About what the search for upstream tasks finds (src/dag_doctor/tools/airflow_metadata.py).
use dag_doctor.Base.{
  ℕ, zero, suc, Text, same_text, same_text_iff, has_text, true, ◌||◌, Option, none, some, List, [],
  ◌∷◌, ◌++◌, ◌≡◌, ◌↔◌, ap, sym, subst, ◌∙◌, arith, Bool-cases, inl, inr,
}
use dag_doctor.Tools.Upstream.{Edges, parents_of, search, upstream_of}
use dag_doctor.Tools.Upstream.Rounds.{
  has_text-append, enough, parents-AllKeys, search-known, search-new, search_total,
}

abbrev list_or : List Text → Option (List Text) → List Text
list_or xs none = xs
list_or xs (some ys) = ys

-- `x` is reached from a task by going up, once or more.
pub data IsAncestor (downstream : List Edges) (task_id : Text) : Text → Type 0 where
  direct :
      (x : Text)
      → has_text x (parents_of downstream task_id) ≡ true
      → IsAncestor downstream task_id x
  above :
      (y x : Text)
      → IsAncestor downstream task_id y
      → has_text x (parents_of downstream y) ≡ true
      → IsAncestor downstream task_id x

module _ (downstream : List Edges) where
  -- What the loop keeps: all that is seen or waits is an ancestor, and the parents of the task and of
  -- all that is seen are seen or wait.
  record IsTracking (task_id : Text) (seen frontier : List Text) : Type 0 where
    sound :
        (x : Text)
        → (has_text x seen || has_text x frontier) ≡ true
        → IsAncestor downstream task_id x
    started :
        (x : Text)
        → has_text x (parents_of downstream task_id) ≡ true
        → (has_text x seen || has_text x frontier) ≡ true
    closed :
        (y x : Text)
        → has_text y seen ≡ true
        → has_text x (parents_of downstream y) ≡ true
        → (has_text x seen || has_text x frontier) ≡ true

  start-IsTracking : (task_id : Text) → IsTracking task_id [] (parents_of downstream task_id)
  start-IsTracking task_id = record {
    sound = λ x h. direct x h;
    started = λ x h. h;
    closed = λ y x h p. absurd cc;
  }

  skip-IsTracking :
      (task_id c : Text) (seen frontier : List Text)
      → has_text c seen ≡ true
      → IsTracking task_id seen (c ∷ frontier)
      → IsTracking task_id seen frontier
  skip-IsTracking task_id c seen frontier known i = record {
    sound = λ x h. i.sound x (ground arith);
    started = λ x h. passes x (i.started x h);
    closed = λ y x h p. passes x (i.closed y x h p);
  }
    where
      passes :
          (x : Text)
          → (has_text x seen || (same_text x c || has_text x frontier)) ≡ true
          → (has_text x seen || has_text x frontier) ≡ true
      passes x h = elim (Bool-cases (same_text x c)) [
        | inl q ↦
            let same : x ≡ c = ground (arith, same_text_iff x c) in
            let here : has_text x seen ≡ true = rw same known in ground arith
        | inr q ↦ ground arith
      ]

  visit-IsTracking :
      (task_id c : Text) (seen frontier : List Text)
      → IsTracking task_id seen (c ∷ frontier)
      → IsTracking task_id (c ∷ seen) (parents_of downstream c ++ frontier)
  visit-IsTracking task_id c seen frontier i = record {
    sound = finds;
    started = λ x h. moves x (i.started x h);
    closed = climbs;
  }
    where
      moves :
          (x : Text)
          → (has_text x seen || (same_text x c || has_text x frontier)) ≡ true
          → ((same_text x c || has_text x seen) || has_text x (parents_of downstream c ++ frontier))
            ≡ true
      moves x h = ground (arith, has_text-append x (parents_of downstream c) frontier)

      finds :
          (x : Text)
          → ((same_text x c || has_text x seen) || has_text x (parents_of downstream c ++ frontier))
            ≡ true
          → IsAncestor downstream task_id x
      finds x h =
          let split = has_text-append x (parents_of downstream c) frontier in
          let current = i.sound c (ground (arith, same_text_iff c c)) in
          elim (Bool-cases (has_text x (parents_of downstream c))) [
            | inl p ↦ above c x current p
            | inr p ↦ i.sound x (ground arith)
          ]

      climbs :
          (y x : Text)
          → (same_text y c || has_text y seen) ≡ true
          → has_text x (parents_of downstream y) ≡ true
          → ((same_text x c || has_text x seen) || has_text x (parents_of downstream c ++ frontier))
            ≡ true
      climbs y x h p = elim (Bool-cases (same_text y c)) [
        | inl q ↦
            let same : c ≡ y = ground (arith, same_text_iff y c) in
            let up : has_text x (parents_of downstream c) ≡ true = rw same p in
            let split = has_text-append x (parents_of downstream c) frontier in ground arith
        | inr q ↦ moves x (i.closed y x (ground arith) p)
      ]

  search-IsTracking :
      (task_id : Text) (fuel : ℕ) (seen frontier found : List Text)
      → IsTracking task_id seen frontier
      → search downstream fuel seen frontier ≡ some found
      → IsTracking task_id found []
  unfolding search
  search-IsTracking task_id zero seen frontier found i e = absurd cc
  search-IsTracking task_id (suc fuel) seen [] found i e =
      subst (λ s. IsTracking task_id s []) (ap (list_or seen) e) i
  search-IsTracking task_id (suc fuel) seen (c ∷ frontier) found i e =
      elim (Bool-cases (has_text c seen)) [
        | inl k ↦
            search-IsTracking task_id fuel seen frontier found
              (skip-IsTracking task_id c seen frontier k i)
              (sym (search-known downstream fuel c seen frontier k) ∙ e)
        | inr k ↦
            search-IsTracking task_id fuel (c ∷ seen) (parents_of downstream c ++ frontier) found
              (visit-IsTracking task_id c seen frontier i)
              (sym (search-new downstream fuel c seen frontier k) ∙ e)
      ]

  closed_has :
      (task_id : Text) (found : List Text)
      → IsTracking task_id found []
      → (x : Text) → IsAncestor downstream task_id x
      → has_text x found ≡ true
  closed_has task_id found i x (direct _ h) = let here = i.started x h in ground arith
  closed_has task_id found i x (above y _ up h) =
      let here = i.closed y x (closed_has task_id found i y up) h in ground arith

-- On any graph of tasks, with cycles or without, the search ends within a number of rounds that the
-- graph gives, and what it finds is exactly the tasks that are reached by going up once or more.
pub upstream_of-IsAncestor :
    (downstream : List Edges) (task_id : Text)
    → (found : List Text) × (upstream_of downstream (enough downstream task_id) task_id
        ≡ some found)
      × ((x : Text) → (has_text x found ≡ true) ↔ IsAncestor downstream task_id x)
unfolding upstream_of
upstream_of-IsAncestor downstream task_id =
    let first = parents_of downstream task_id in
    let (found, e) =
      search_total downstream (enough downstream task_id) [] first
        (parents-AllKeys downstream task_id) (omega arith) in
    let i =
      search-IsTracking downstream task_id (enough downstream task_id) [] first found
        (start-IsTracking downstream task_id) e in
    (found, e, λ x. (λ h. i.sound x (ground arith), closed_has downstream task_id found i x))
