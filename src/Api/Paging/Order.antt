-- ===== src/Api/Paging/Order.antt =====
-- About the order of a listing (src/dag_doctor/api/v1/routes).
use mathlib.Core.List.{Perm}
use mathlib.Core.List.Perm
use dag_doctor.Base.{
  suc, ◌==◌, Bool, true, false, List, [], ◌∷◌, keep, length, if◌then◌else◌, ◌≡◌, ap, sym, ◌∙◌, refl,
  arith, Bool-cases, inl, inr,
}
use dag_doctor.Api.Paging.{Key, is_behind, place, newest_first}

pub behind_trans :
    (a b c : Key) → is_behind a b ≡ true → is_behind b c ≡ true → is_behind a c ≡ true
unfolding is_behind
behind_trans a b c h k = ground arith

pub behind_asym : (a b : Key) → is_behind a b ≡ true → is_behind b a ≡ false
unfolding is_behind
behind_asym a b h = ground arith

pub behind_irrefl : (a : Key) → is_behind a a ≡ false
unfolding is_behind
behind_irrefl a = ground arith

-- Two rows with different ids are in one order or the other.
behind_total : (a b : Key) → a.id == b.id ≡ false → is_behind a b ≡ false → is_behind b a ≡ true
unfolding is_behind
behind_total a b h k = ground arith

module _ {ℓ} {A : Type ℓ} (key : A → Key) where
  abbrev pub AllBehind : Key → List A → Type 0
  AllBehind k [] = Unit {0}
  AllBehind k (x ∷ xs) = (is_behind k (key x) ≡ true) × AllBehind k xs

  abbrev pub IsSorted : List A → Type 0
  IsSorted [] = Unit {0}
  IsSorted (x ∷ xs) = AllBehind (key x) xs × IsSorted xs

  abbrev AllOther : A → List A → Type 0
  AllOther x [] = Unit {0}
  AllOther x (y ∷ ys) = ((key x).id == (key y).id ≡ false) × AllOther x ys

  -- The id is the table's primary key.
  abbrev pub UniqueIds : List A → Type 0
  UniqueIds [] = Unit {0}
  UniqueIds (x ∷ xs) = AllOther x xs × UniqueIds xs

  AllBehind-trans :
      (a b : Key) (xs : List A) → is_behind a b ≡ true → AllBehind b xs → AllBehind a xs
  AllBehind-trans a b [] h k = tt
  AllBehind-trans a b (x ∷ xs) h k = (behind_trans a b (key x) h k.0, AllBehind-trans a b xs h k.1)

  AllBehind-place :
      (k : Key) (x : A) (xs : List A)
      → is_behind k (key x) ≡ true
      → AllBehind k xs
      → AllBehind k (place key x xs)
  unfolding place
  AllBehind-place k x [] h all = (h, tt)
  AllBehind-place k x (y ∷ ys) h all = elim (Bool-cases (is_behind (key x) (key y))) [
    | inl e ↦ rw e (h, all)
    | inr e ↦ rw e (all.0, AllBehind-place k x ys h all.1)
  ]

  place-IsSorted : (x : A) (xs : List A) → AllOther x xs → IsSorted xs → IsSorted (place key x xs)
  unfolding place
  place-IsSorted x [] o s = (tt, tt)
  place-IsSorted x (y ∷ ys) o s = elim (Bool-cases (is_behind (key x) (key y))) [
    | inl e ↦ rw e ((e, AllBehind-trans (key x) (key y) ys e s.0), s)
    | inr e ↦ rw e (
      AllBehind-place (key y) x ys (behind_total (key x) (key y) o.0 e) s.0,
      place-IsSorted x ys o.1 s.1,
    )
  ]

  AllOther-place :
      (x y : A) (xs : List A)
      → (key x).id == (key y).id ≡ false
      → AllOther x xs
      → AllOther x (place key y xs)
  unfolding place
  AllOther-place x y [] h o = (h, tt)
  AllOther-place x y (z ∷ zs) h o = elim (Bool-cases (is_behind (key y) (key z))) [
    | inl e ↦ rw e (h, o)
    | inr e ↦ rw e (o.0, AllOther-place x y zs h o.1)
  ]

  AllOther-newest_first : (x : A) (xs : List A) → AllOther x xs → AllOther x (newest_first key xs)
  unfolding newest_first
  AllOther-newest_first x [] o = tt
  AllOther-newest_first x (y ∷ ys) o =
      AllOther-place x y (newest_first key ys) o.0 (AllOther-newest_first x ys o.1)

  pub newest_first-IsSorted : (xs : List A) → UniqueIds xs → IsSorted (newest_first key xs)
  unfolding newest_first
  newest_first-IsSorted [] u = tt
  newest_first-IsSorted (x ∷ xs) u =
      place-IsSorted x (newest_first key xs) (AllOther-newest_first x xs u.0)
        (newest_first-IsSorted xs u.1)

  pub keep-AllBehind :
      (p : A → Bool) (k : Key) (xs : List A) → AllBehind k xs → AllBehind k (keep p xs)
  keep-AllBehind p k [] h = tt
  keep-AllBehind p k (x ∷ xs) h = elim (Bool-cases (p x)) [
    | inl e ↦ rw e (h.0, keep-AllBehind p k xs h.1)
    | inr e ↦ rw e (keep-AllBehind p k xs h.1)
  ]

  -- A row before all of a sorted list is placed at its head.
  place-AllBehind : (x : A) (xs : List A) → AllBehind (key x) xs → place key x xs ≡ x ∷ xs
  unfolding place
  place-AllBehind x [] h = refl
  place-AllBehind x (y ∷ ys) h = rw h.0

  keep-place :
      (p : A → Bool) (x : A) (xs : List A)
      → IsSorted xs
      → keep p (place key x xs) ≡ (if p x then place key x (keep p xs) else keep p xs)
  unfolding place
  keep-place p x [] s = refl
  keep-place p x (y ∷ ys) s =
      let ih = keep-place p x ys s.1 in
      elim (Bool-cases (is_behind (key x) (key y))) [
        | inl e ↦
            let all =
              keep-AllBehind p (key x) (y ∷ ys) (e, AllBehind-trans (key x) (key y) ys e s.0) in
            elim (Bool-cases (p x)) [
              | inl h ↦ rw (e, h) (sym (place-AllBehind x (keep p (y ∷ ys)) all))
              | inr h ↦ rw (e, h) refl
            ]
        | inr e ↦ elim (Bool-cases (p y)) [
          | inl h ↦ elim (Bool-cases (p x)) [
            | inl g ↦ rw (e, h, ih, g, e) refl
            | inr g ↦ rw (e, h, ih, g) refl
          ]
          | inr h ↦ rw (e, h) ih
        ]
      ]

  pub keep-newest_first :
      (p : A → Bool) (xs : List A)
      → UniqueIds xs
      → newest_first key (keep p xs) ≡ keep p (newest_first key xs)
  unfolding newest_first
  keep-newest_first p [] u = refl
  keep-newest_first p (x ∷ xs) u =
      let ih = keep-newest_first p xs u.1 in
      let placed = keep-place p x (newest_first key xs) (newest_first-IsSorted xs u.1) in
      elim (Bool-cases (p x)) [
        | inl e ↦ rw (e, ih, placed, e) refl
        | inr e ↦ rw (e, ih, placed, e) refl
      ]

  keep-AllOther : (p : A → Bool) (x : A) (xs : List A) → AllOther x xs → AllOther x (keep p xs)
  keep-AllOther p x [] o = tt
  keep-AllOther p x (y ∷ ys) o = elim (Bool-cases (p y)) [
    | inl e ↦ rw e (o.0, keep-AllOther p x ys o.1)
    | inr e ↦ rw e (keep-AllOther p x ys o.1)
  ]

  pub keep-UniqueIds : (p : A → Bool) (xs : List A) → UniqueIds xs → UniqueIds (keep p xs)
  keep-UniqueIds p [] u = tt
  keep-UniqueIds p (x ∷ xs) u = elim (Bool-cases (p x)) [
    | inl e ↦ rw e (keep-AllOther p x xs u.0, keep-UniqueIds p xs u.1)
    | inr e ↦ rw e (keep-UniqueIds p xs u.1)
  ]

  place-perm : (x : A) (xs : List A) → Perm (place key x xs) (x ∷ xs)
  unfolding place
  place-perm x [] = Perm.rfl
  place-perm x (y ∷ ys) = elim (Bool-cases (is_behind (key x) (key y))) [
    | inl e ↦ rw e Perm.rfl
    | inr e ↦ rw e (Perm.trans (Perm.cons y (place-perm x ys)) (Perm.swap x y ys))
  ]

  pub newest_first-perm : (xs : List A) → Perm (newest_first key xs) xs
  unfolding newest_first
  newest_first-perm [] = Perm.rfl
  newest_first-perm (x ∷ xs) =
      Perm.trans (place-perm x (newest_first key xs)) (Perm.cons x (newest_first-perm xs))

  length-place : (x : A) (xs : List A) → length (place key x xs) ≡ suc (length xs)
  unfolding place
  length-place x [] = refl
  length-place x (y ∷ ys) = ground (arith, length-place x ys)

  pub length-newest_first : (xs : List A) → length (newest_first key xs) ≡ length xs
  unfolding newest_first
  length-newest_first [] = refl
  length-newest_first (x ∷ xs) =
      length-place x (newest_first key xs) ∙ ap suc (length-newest_first xs)
