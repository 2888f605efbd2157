-- ===== src/Base/Names.antt =====
-- Python's order of strings on texts, by code points, and `sorted(set(names))`.
use mathlib.Core.Path.{◌≡◌, refl, sym, ap, ◌∙◌}
use mathlib.Core.Logic.{◌↔◌, inl, inr}
use mathlib.Core.Bool.{Bool, true, false, ◌&&◌, ◌||◌}
use mathlib.Core.List.{List, [], ◌∷◌}
use native.Mathlib.Omega.{arith}
use dag_doctor.Base.Tests.{◌==◌, ltb, if◌then◌else◌, Bool-cases}
use dag_doctor.Base.Texts.{Text, same_text, has_text}
use dag_doctor.Base.Lists.{keep}

-- `s < t`
abbrev pub text_lt : Text → Text → Bool
text_lt s [] = false
text_lt [] (d ∷ t) = true
text_lt (c ∷ s) (d ∷ t) = ltb c d || c == d && text_lt s t

pub same_text_refl : (s : Text) → same_text s s ≡ true
same_text_refl [] = refl
same_text_refl (c ∷ s) = ground (arith, same_text_refl s)

pub same_text_eq : (s t : Text) → same_text s t ≡ true → s ≡ t
same_text_eq [] [] h = refl
same_text_eq [] (d ∷ t) h = absurd (ground arith)
same_text_eq (c ∷ s) [] h = absurd (ground arith)
same_text_eq (c ∷ s) (d ∷ t) h =
    let e : c ≡ d = ground arith in
    let rest : same_text s t ≡ true = ground arith in
    ap (λ x. x ∷ s) e ∙ ap (λ x. d ∷ x) (same_text_eq s t rest)

pub same_text_iff : (s t : Text) → (same_text s t ≡ true) ↔ (s ≡ t)
same_text_iff s t = (same_text_eq s t, λ e. ap (λ u. same_text s u) (sym e) ∙ same_text_refl s)

pub same_text_sym : (s t : Text) → same_text s t ≡ same_text t s
same_text_sym [] [] = refl
same_text_sym [] (d ∷ t) = refl
same_text_sym (c ∷ s) [] = refl
same_text_sym (c ∷ s) (d ∷ t) = ground (arith, same_text_sym s t)

pub text_lt_trans : (s t u : Text) → text_lt s t ≡ true → text_lt t u ≡ true → text_lt s u ≡ true
text_lt_trans s t [] h k = absurd (ground arith)
text_lt_trans s [] (e ∷ u) h k = absurd (ground arith)
text_lt_trans [] (d ∷ t) (e ∷ u) h k = refl
text_lt_trans (c ∷ s) (d ∷ t) (e ∷ u) h k = ground (arith, text_lt_trans s t u)

pub text_lt_irrefl : (s : Text) → text_lt s s ≡ false
text_lt_irrefl [] = refl
text_lt_irrefl (c ∷ s) = ground (arith, text_lt_irrefl s)

text_lt_total : (s t : Text) → same_text s t ≡ false → text_lt s t ≡ false → text_lt t s ≡ true
text_lt_total [] [] h k = absurd (ground arith)
text_lt_total [] (d ∷ t) h k = absurd (ground arith)
text_lt_total (c ∷ s) [] h k = refl
text_lt_total (c ∷ s) (d ∷ t) h k = ground (arith, text_lt_total s t)

-- A name put in its place, once.
unfoldable pub place_name : Text → List Text → List Text
place_name x [] = x ∷ []
place_name x (y ∷ ys) =
    let rest = place_name x ys in
    if same_text x y then y ∷ ys else if text_lt x y then x ∷ y ∷ ys else y ∷ rest

-- `sorted(set(names))`
unfoldable pub sorted_set : List Text → List Text
sorted_set [] = []
sorted_set (x ∷ xs) = place_name x (sorted_set xs)

has_text-place_name :
    (t x : Text) (ys : List Text) → has_text t (place_name x ys) ≡ same_text t x || has_text t ys
unfolding place_name
has_text-place_name t x [] = refl
has_text-place_name t x (y ∷ ys) = elim (Bool-cases (same_text x y)) [
  | inl e ↦ let q : x ≡ y = same_text_eq x y e in rw (e, q) (ground arith)
  | inr e ↦ rw e (ground (arith, has_text-place_name t x ys))
]

-- The set has the names of the list.
pub has_text-sorted_set : (t : Text) (xs : List Text) → has_text t (sorted_set xs) ≡ has_text t xs
unfolding sorted_set
has_text-sorted_set t [] = refl
has_text-sorted_set t (x ∷ xs) =
    has_text-place_name t x (sorted_set xs)
    ∙ ap (λ b. same_text t x || b) (has_text-sorted_set t xs)

pub has_text-keep :
    (p : Text → Bool) (t : Text) (xs : List Text) → has_text t (keep p xs) ≡ has_text t xs && p t
has_text-keep p t [] = refl
has_text-keep p t (x ∷ xs) = elim (Bool-cases (same_text t x)) [
  | inl e ↦ let q : p t ≡ p x = ap p (same_text_eq t x e) in ground (arith, has_text-keep p t xs)
  | inr e ↦ ground (arith, has_text-keep p t xs)
]

abbrev pub AllAfter : Text → List Text → Type 0
AllAfter x [] = Unit {0}
AllAfter x (y ∷ ys) = (text_lt x y ≡ true) × AllAfter x ys

-- In the order of Python's strings, with no name twice.
abbrev pub Ascending : List Text → Type 0
Ascending [] = Unit {0}
Ascending (x ∷ xs) = AllAfter x xs × Ascending xs

AllAfter-trans : (x y : Text) (zs : List Text) → text_lt x y ≡ true → AllAfter y zs → AllAfter x zs
AllAfter-trans x y [] h k = tt
AllAfter-trans x y (z ∷ zs) h k = (text_lt_trans x y z h k.0, AllAfter-trans x y zs h k.1)

AllAfter-place_name :
    (x y : Text) (zs : List Text)
    → text_lt y x ≡ true
    → AllAfter y zs
    → AllAfter y (place_name x zs)
unfolding place_name
AllAfter-place_name x y [] h k = (h, tt)
AllAfter-place_name x y (z ∷ zs) h k = elim (Bool-cases (same_text x z)) [
  | inl e ↦ rw e k
  | inr e ↦ elim (Bool-cases (text_lt x z)) [
    | inl l ↦ rw (e, l) (h, k)
    | inr l ↦ rw (e, l) (k.0, AllAfter-place_name x y zs h k.1)
  ]
]

place_name-Ascending : (x : Text) (ys : List Text) → Ascending ys → Ascending (place_name x ys)
unfolding place_name
place_name-Ascending x [] h = (tt, tt)
place_name-Ascending x (y ∷ ys) h = elim (Bool-cases (same_text x y)) [
  | inl e ↦ rw e h
  | inr e ↦ elim (Bool-cases (text_lt x y)) [
    | inl l ↦ rw (e, l) ((l, AllAfter-trans x y ys l h.0), h)
    | inr l ↦
        rw (e, l)
          (AllAfter-place_name x y ys (text_lt_total x y e l) h.0, place_name-Ascending x ys h.1)
  ]
]

pub sorted_set-Ascending : (xs : List Text) → Ascending (sorted_set xs)
unfolding sorted_set
sorted_set-Ascending [] = tt
sorted_set-Ascending (x ∷ xs) = place_name-Ascending x (sorted_set xs) (sorted_set-Ascending xs)

-- A name behind every other is not among them.
pub AllAfter-absent : (x : Text) (ys : List Text) → AllAfter x ys → has_text x ys ≡ false
AllAfter-absent x [] h = refl
AllAfter-absent x (y ∷ ys) h = elim (Bool-cases (same_text x y)) [
  | inl e ↦
      let q : text_lt x x ≡ true = ap (λ z. text_lt x z) (same_text_eq x y e) ∙ h.0 in
      absurd (ground (arith, text_lt_irrefl x))
  | inr e ↦ rw e (AllAfter-absent x ys h.1)
]

AllAfter-keep :
    (p : Text → Bool) (x : Text) (ys : List Text) → AllAfter x ys → AllAfter x (keep p ys)
AllAfter-keep p x [] h = tt
AllAfter-keep p x (y ∷ ys) h = elim (Bool-cases (p y)) [
  | inl e ↦ rw e (h.0, AllAfter-keep p x ys h.1)
  | inr e ↦ rw e (AllAfter-keep p x ys h.1)
]

pub keep-Ascending : (p : Text → Bool) (xs : List Text) → Ascending xs → Ascending (keep p xs)
keep-Ascending p [] h = tt
keep-Ascending p (x ∷ xs) h = elim (Bool-cases (p x)) [
  | inl e ↦ rw e (AllAfter-keep p x xs h.0, keep-Ascending p xs h.1)
  | inr e ↦ rw e (keep-Ascending p xs h.1)
]
