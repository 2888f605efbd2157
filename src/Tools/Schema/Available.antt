-- ===== src/Tools/Schema/Available.antt =====
-- About the list of names that are still available (src/dag_doctor/tools/schema_inspect.py,
-- _likely_renames).
use dag_doctor.Base.{
  ◌≡◌, refl, sym, ap, ◌∙◌, arith, Bool-cases, inl, inr, Bool, true, false, none, some, List, [],
  ◌∷◌, find, Text, same_text, has_text, same_text_eq, same_text_refl, same_text_sym, Ascending,
  AllAfter, AllAfter-absent,
}
use dag_doctor.Tools.Schema.{without}

pub has_text-without :
    (u t : Text) (ss : List Text) → has_text u (without t ss) ≡ true → has_text u ss ≡ true
unfolding without
has_text-without u t [] h = h
has_text-without u t (s ∷ ss) h = elim (Bool-cases (same_text s t)) [
  | inl e ↦ ground arith
  | inr e ↦ ground (arith, has_text-without u t ss)
]

pub has_text-without_other :
    (u t : Text) (ss : List Text)
    → same_text u t ≡ false
    → has_text u ss ≡ true
    → has_text u (without t ss) ≡ true
unfolding without
has_text-without_other u t [] d h = h
has_text-without_other u t (s ∷ ss) d h = elim (Bool-cases (same_text s t)) [
  | inl e ↦
      let q : same_text u s ≡ false = ap (λ z. same_text u z) (same_text_eq s t e) ∙ d in
      ground arith
  | inr e ↦ ground (arith, has_text-without_other u t ss d)
]

pub AllAfter-without : (x t : Text) (ss : List Text) → AllAfter x ss → AllAfter x (without t ss)
unfolding without
AllAfter-without x t [] h = tt
AllAfter-without x t (s ∷ ss) h = elim (Bool-cases (same_text s t)) [
  | inl e ↦ rw e h.1
  | inr e ↦ rw e (h.0, AllAfter-without x t ss h.1)
]

pub without-Ascending : (t : Text) (ss : List Text) → Ascending ss → Ascending (without t ss)
unfolding without
without-Ascending t [] h = tt
without-Ascending t (s ∷ ss) h = elim (Bool-cases (same_text s t)) [
  | inl e ↦ rw e h.1
  | inr e ↦ rw e (AllAfter-without s t ss h.0, without-Ascending t ss h.1)
]

pub has_text-without_same :
    (t : Text) (ss : List Text) → Ascending ss → has_text t (without t ss) ≡ false
unfolding without
has_text-without_same t [] h = refl
has_text-without_same t (s ∷ ss) h = elim (Bool-cases (same_text s t)) [
  | inl e ↦
      let q : s ≡ t = same_text_eq s t e in
      rw e (ap (λ z. has_text z ss) (sym q) ∙ AllAfter-absent s ss h.0)
  | inr e ↦ rw e (ground (arith, has_text-without_same t ss h.1, same_text_sym t s))
]

pub find-holds :
    (p : Text → Bool) (ss : List Text) (m : Text)
    → find p ss ≡ some m
    → (p m ≡ true) × (has_text m ss ≡ true)
find-holds p [] m h = absurd (ground arith)
find-holds p (s ∷ ss) m h = elim (Bool-cases (p s)) [
  | inl e ↦
      let q : s ≡ m = ground arith in
      (ap p (sym q) ∙ e, ground (arith, same_text_refl m, ap (λ z. same_text m z) q))
  | inr e ↦
      let q : find p ss ≡ some m = ground arith in
      let ih = find-holds p ss m q in (ih.0, ground arith)
]

pub find-none :
    (p : Text → Bool) (ss : List Text) (t : Text)
    → find p ss ≡ none
    → has_text t ss ≡ true
    → p t ≡ false
find-none p [] t h k = absurd (ground arith)
find-none p (s ∷ ss) t h k = elim (Bool-cases (same_text t s)) [
  | inl e ↦ let q : p t ≡ p s = ap p (same_text_eq t s e) in ground arith
  | inr e ↦ ground (arith, find-none p ss t)
]
