-- ===== src/Tools/Upstream/Rounds.antt =====
-- About the rounds of the search for upstream tasks (src/dag_doctor/tools/airflow_metadata.py).
use dag_doctor.Base.{
  ℕ, zero, suc, ◌+◌, ◌≤◌, ◌<◌, Text, same_text, same_text_iff, has_text, true, false, ◌||◌, some,
  List, [], ◌∷◌, ◌++◌, map, keep, length, length-append, ◌≡◌, ap, refl, arith, Bool-cases, inl, inr,
  if◌then◌else◌,
}
use dag_doctor.Tools.Upstream.{Edges, parents_of, search}

pub has_text-append :
    (x : Text) (xs ys : List Text) → has_text x (xs ++ ys) ≡ has_text x xs || has_text x ys
has_text-append x [] ys = refl
has_text-append x (z ∷ xs) ys = ground (arith, has_text-append x xs ys)

module _ (downstream : List Edges) where
  -- The work left: for each task not seen, itself and its parents.
  abbrev pub weight : List Text → List Edges → ℕ
  weight seen [] = 0
  weight seen (e ∷ es) =
      let rest = weight seen es in
      if has_text e.parent seen then rest else suc (length (parents_of downstream e.parent)) + rest

  abbrev pub keys : List Edges → List Text
  keys es = map (λ (e : Edges). e.parent) es

  weight_grows :
      (x : Text) (seen : List Text) (es : List Edges) → weight (x ∷ seen) es ≤ weight seen es
  weight_grows x seen [] = omega arith
  weight_grows x seen (e ∷ es) = ground (arith, weight_grows x seen es)

  weight_falls :
      (x : Text) (seen : List Text) (es : List Edges)
      → has_text x (keys es) ≡ true
      → has_text x seen ≡ false
      → suc (length (parents_of downstream x)) + weight (x ∷ seen) es ≤ weight seen es
  weight_falls x seen [] h k = absurd cc
  weight_falls x seen (e ∷ es) h k = elim (Bool-cases (same_text x e.parent)) [
    | inl q ↦
        let same : e.parent ≡ x = ground (arith, same_text_iff x e.parent) in
        let less = weight_grows x seen es in
        let self : same_text e.parent x ≡ true = ground (arith, same_text_iff e.parent x) in
        let unseen : has_text e.parent seen ≡ false = rw same k in
        let as_many : length (parents_of downstream e.parent) ≡ length (parents_of downstream x) =
          ap (λ y. length (parents_of downstream y)) same in
        rw (self, unseen) (omega arith)
    | inr q ↦
        let other : same_text e.parent x ≡ false =
          ground (arith, same_text_iff e.parent x, same_text_iff x e.parent) in
        let further : has_text x (keys es) ≡ true = cc in
        let less = weight_falls x seen es further k in
        elim (Bool-cases (has_text e.parent seen)) [
          | inl s ↦ rw (other, s) less
          | inr s ↦ rw (other, s) (omega arith)
        ]
  ]

  -- Whatever waits on the stack is a task of the DAG.
  abbrev pub AllKeys : List Text → Type 0
  AllKeys frontier = (x : Text) → has_text x frontier ≡ true → has_text x (keys downstream) ≡ true

  pub parents-AllKeys : (y : Text) → AllKeys (parents_of downstream y)
  unfolding parents_of
  parents-AllKeys y = go downstream
    where
      go :
          (es : List Edges) (x : Text)
          → has_text x
              (map (λ (e : Edges). e.parent) (keep (λ (e : Edges). has_text y e.children) es))
            ≡ true
          → has_text x (keys es) ≡ true
      go [] x h = h
      go (e ∷ es) x h = ground (arith, go es x)

  tail-AllKeys : (c : Text) (frontier : List Text) → AllKeys (c ∷ frontier) → AllKeys frontier
  tail-AllKeys c frontier all x h = all x (ground arith)

  head_in : (c : Text) (frontier : List Text) → has_text c (c ∷ frontier) ≡ true
  head_in c frontier = ground (arith, same_text_iff c c)

  pushed-AllKeys :
      (c : Text) (frontier : List Text)
      → AllKeys (c ∷ frontier)
      → AllKeys (parents_of downstream c ++ frontier)
  pushed-AllKeys c frontier all x h =
      let split = has_text-append x (parents_of downstream c) frontier in
      elim (Bool-cases (has_text x (parents_of downstream c))) [
        | inl p ↦ parents-AllKeys c x p
        | inr p ↦ tail-AllKeys c frontier all x cc
      ]

  pub search-known :
      (fuel : ℕ) (c : Text) (seen frontier : List Text)
      → has_text c seen ≡ true
      → search downstream (suc fuel) seen (c ∷ frontier) ≡ search downstream fuel seen frontier
  unfolding search
  search-known fuel c seen frontier h = rw (h, search)

  pub search-new :
      (fuel : ℕ) (c : Text) (seen frontier : List Text)
      → has_text c seen ≡ false
      → search downstream (suc fuel) seen (c ∷ frontier)
        ≡ search downstream fuel (c ∷ seen) (parents_of downstream c ++ frontier)
  unfolding search
  search-new fuel c seen frontier h = rw (h, search)

  pub search_total :
      (fuel : ℕ) (seen frontier : List Text)
      → AllKeys frontier
      → weight seen downstream + length frontier < fuel
      → (found : List Text) × (search downstream fuel seen frontier ≡ some found)
  unfolding search
  search_total zero seen frontier all h = absurd (omega arith)
  search_total (suc fuel) seen [] all h = (seen, refl)
  search_total (suc fuel) seen (current ∷ frontier) all h =
      elim (Bool-cases (has_text current seen)) [
        | inl e ↦
            rw (search-known fuel current seen frontier e)
              (search_total fuel seen frontier (tail-AllKeys current frontier all) (omega arith))
        | inr e ↦
            let falls =
              weight_falls current seen downstream (all current (head_in current frontier)) e in
            let longer = length-append (parents_of downstream current) frontier in
            rw (search-new fuel current seen frontier e) (
              search_total fuel (current ∷ seen) (parents_of downstream current ++ frontier)
                (pushed-AllKeys current frontier all) (omega arith))
      ]

  -- How many rounds of the loop are always enough.
  abbrev pub enough : Text → ℕ
  enough task_id = suc (weight [] downstream + length (parents_of downstream task_id))
