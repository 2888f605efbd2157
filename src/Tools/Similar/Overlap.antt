-- ===== src/Tools/Similar/Overlap.antt =====
-- About the overlap of two sets of tokens (src/dag_doctor/tools/similar_incidents.py, jaccard).
use dag_doctor.Base.{
  ℕ, ◌≤◌, ◌+◌, ◌-◌, ◌*◌, ◌≡◌, refl, sym, ap, ◌∙◌, arith, ltb, leb, Bool-cases, inl, inr, Bool, true,
  false, not, ◌&&◌, List, [], ◌∷◌, keep, length, Text, same_text, same_text_eq, same_text_sym,
  has_text, Ascending, AllAfter-absent,
}
use dag_doctor.Tools.Similar.{jaccard, too_low}

-- How many of some texts are among others, and how many are not.
abbrev pub count_in : List Text → List Text → ℕ
count_in others ts = length (keep (λ t. has_text t others) ts)

abbrev pub count_outside : List Text → List Text → ℕ
count_outside others ts = length (keep (λ t. not (has_text t others)) ts)

-- Some token is in both, and at least a quarter of all the tokens are: those on the left, and those
-- on the right that are not on the left.
abbrev pub overlaps : List Text → List Text → Bool
overlaps left right =
    ltb 0 (count_in right left)
    && leb (length left + count_outside left right) (4 * count_in right left)

count_split : (others ts : List Text) → count_in others ts + count_outside others ts ≡ length ts
count_split others [] = omega arith
count_split others (t ∷ ts) = ground (arith, count_split others ts)

count_in_none : (ts : List Text) → count_in [] ts ≡ 0
count_in_none [] = refl
count_in_none (t ∷ ts) = count_in_none ts

abbrev one_if : Bool → ℕ
one_if true = 1
one_if false = 0

-- One more text to be among counts once, if it is there.
count_in_more :
    (x : Text) (xs ys : List Text)
    → has_text x xs ≡ false
    → Ascending ys
    → count_in (x ∷ xs) ys ≡ one_if (has_text x ys) + count_in xs ys
count_in_more x xs [] h asc = refl
count_in_more x xs (y ∷ ys) h asc = elim (Bool-cases (same_text y x)) [
  | inl e ↦
      let q : same_text x y ≡ true = same_text_sym x y ∙ e in
      let none_left : has_text x ys ≡ false =
        ap (λ z. has_text z ys) (sym (same_text_eq y x e)) ∙ AllAfter-absent y ys asc.0 in
      let new : has_text y xs ≡ false = ap (λ z. has_text z xs) (same_text_eq y x e) ∙ h in
      let rest = count_in_more x xs ys h asc.1 in
      rw (e, q, new) (omega (arith, rest ∙ ap (λ b. one_if b + count_in xs ys) none_left))
  | inr e ↦
      let q : same_text x y ≡ false = same_text_sym x y ∙ e in
      let rest = count_in_more x xs ys h asc.1 in
      elim (Bool-cases (has_text y xs)) [
        | inl k ↦ rw (e, q, k) (omega (arith, rest))
        | inr k ↦ rw (e, q, k) rest
      ]
]

-- As many on the left are among the right as the other way round.
count_in_sym : (xs ys : List Text) → Ascending xs → Ascending ys → count_in ys xs ≡ count_in xs ys
count_in_sym [] ys h k = sym (count_in_none ys)
count_in_sym (x ∷ xs) ys h k =
    let rest = count_in_sym xs ys h.1 k in
    let more = count_in_more x xs ys (AllAfter-absent x xs h.0) k in
    elim (Bool-cases (has_text x ys)) [
      | inl e ↦ rw e (omega (arith, rest, more ∙ ap (λ b. one_if b + count_in xs ys) e))
      | inr e ↦ rw e (omega (arith, rest, more ∙ ap (λ b. one_if b + count_in xs ys) e))
    ]

overlap_test :
    (left right both outside : ℕ)
    → both + outside ≡ right
    → 1 ≤ left
    → ltb (4 * both) (left + right - both) ≡ not (ltb 0 both && leb (left + outside) (4 * both))
overlap_test left right both outside h k = ground arith

-- A score is too low exactly where the tokens do not overlap enough.
pub too_low-jaccard :
    (left right : List Text)
    → Ascending left
    → Ascending right
    → too_low (jaccard left right) ≡ not (overlaps left right)
unfolding jaccard
too_low-jaccard [] right h k = refl
too_low-jaccard (l ∷ left) [] h k =
    ap (λ n. not (ltb 0 n && leb (length (l ∷ left) + 0) (4 * n))) (sym (count_in_none (l ∷ left)))
too_low-jaccard (l ∷ left) (r ∷ right) h k =
    overlap_test (length (l ∷ left)) (length (r ∷ right)) (count_in (r ∷ right) (l ∷ left))
      (count_outside (l ∷ left) (r ∷ right))
      (ap (λ n. n + count_outside (l ∷ left) (r ∷ right)) (count_in_sym (l ∷ left) (r ∷ right) h k)
        ∙ count_split (l ∷ left) (r ∷ right))
      (omega arith)
