-- ===== src/Tools/Airflow/Earliest.antt =====
-- About the failure that came first (src/dag_doctor/tools/airflow_metadata.py,
-- _earliest_genuine_failure).
use dag_doctor.Base.{
  ℕ, ◌≡◌, refl, sym, ap, ◌∙◌, arith, ◌⊎◌, inl, inr, Bool-cases, Bool, true, false, Option, none,
  some, List, [], ◌∷◌, keep, any, Text, if◌then◌else◌, Among, Among-keep, keep-Among, subst,
}
use dag_doctor.Tools.Airflow.{
  TaskState, is_failed, has_end, ends_before, first_to_end, choose_failure, id_of,
  earliest_genuine_failure,
}

before_step :
    (a b c : Option ℕ) → ends_before a b ≡ false → ends_before b c ≡ false → ends_before a c ≡ false
before_step none b c h k = refl
before_step (some a) none none h k = absurd (ground arith)
before_step (some a) none (some c) h k = absurd (ground arith)
before_step (some a) (some b) none h k = absurd (ground arith)
before_step (some a) (some b) (some c) h k = ground arith

before_asym : (a b : Option ℕ) → ends_before a b ≡ true → ends_before b a ≡ false
before_asym none b h = absurd (ground arith)
before_asym (some a) none h = refl
before_asym (some a) (some b) h = ground arith

before_irrefl : (a : Option ℕ) → ends_before a a ≡ false
before_irrefl none = refl
before_irrefl (some a) = ground arith

-- None of the tasks ends before a given one.
abbrev pub AllLater : TaskState → List TaskState → Type 0
AllLater r ts = (u : TaskState) → Among u ts → ends_before u.end_date r.end_date ≡ false

first_to_end_moves :
    (t u : TaskState) (us : List TaskState)
    → ends_before u.end_date t.end_date ≡ true
    → first_to_end u us ≡ first_to_end t (u ∷ us)
unfolding first_to_end
first_to_end_moves t u us e = ap (λ b. first_to_end (if b then u else t) us) (sym e)

first_to_end_stays :
    (t u : TaskState) (us : List TaskState)
    → ends_before u.end_date t.end_date ≡ false
    → first_to_end t us ≡ first_to_end t (u ∷ us)
unfolding first_to_end
first_to_end_stays t u us e = ap (λ b. first_to_end (if b then u else t) us) (sym e)

first_to_end-Among : (t : TaskState) (us : List TaskState) → Among (first_to_end t us) (t ∷ us)
unfolding first_to_end
first_to_end-Among t [] = inl refl
first_to_end-Among t (u ∷ us) = elim (Bool-cases (ends_before u.end_date t.end_date)) [
  | inl e ↦
      subst (λ r. Among r (t ∷ u ∷ us)) (first_to_end_moves t u us e)
        (inr (first_to_end-Among u us))
  | inr e ↦
      subst (λ r. Among r (t ∷ u ∷ us)) (first_to_end_stays t u us e)
        (skip (first_to_end t us) (first_to_end-Among t us))
]
  where
    skip : (r : TaskState) → Among r (t ∷ us) → Among r (t ∷ u ∷ us)
    skip r (inl q) = inl q
    skip r (inr m) = inr (inr m)

first_to_end-AllLater :
    (t : TaskState) (us : List TaskState) → AllLater (first_to_end t us) (t ∷ us)
unfolding first_to_end
first_to_end-AllLater t [] x (inl q) =
    ap (λ z. ends_before z.end_date t.end_date) q ∙ before_irrefl t.end_date
first_to_end-AllLater t [] x (inr m) = absurd m
first_to_end-AllLater t (u ∷ us) x m = elim (Bool-cases (ends_before u.end_date t.end_date)) [
  | inl e ↦
      subst (λ r. ends_before x.end_date r.end_date ≡ false) (first_to_end_moves t u us e)
        (go_first u (first_to_end-AllLater u us) (before_asym u.end_date t.end_date e) m)
  | inr e ↦
      subst (λ r. ends_before x.end_date r.end_date ≡ false) (first_to_end_stays t u us e)
        (go_next (first_to_end-AllLater t us) e m)
]
  where
    go_first :
        (v : TaskState)
        → AllLater (first_to_end v us) (v ∷ us)
        → ends_before t.end_date v.end_date ≡ false
        → Among x (t ∷ v ∷ us)
        → ends_before x.end_date (first_to_end v us).end_date ≡ false
    go_first v all h (inl q) =
        ap (λ z. ends_before z.end_date (first_to_end v us).end_date) q
        ∙ before_step t.end_date v.end_date (first_to_end v us).end_date h (all v (inl refl))
    go_first v all h (inr k) = all x k

    go_next :
        AllLater (first_to_end t us) (t ∷ us)
        → ends_before u.end_date t.end_date ≡ false
        → Among x (t ∷ u ∷ us)
        → ends_before x.end_date (first_to_end t us).end_date ≡ false
    go_next all h (inl q) = all x (inl q)
    go_next all h (inr (inl q)) =
        ap (λ z. ends_before z.end_date (first_to_end t us).end_date) q
        ∙ before_step u.end_date t.end_date (first_to_end t us).end_date h (all t (inl refl))
    go_next all h (inr (inr k)) = all x (inr k)

-- A failed task of the given id that none of the failed tasks is known to have ended before.
pub record IsEarliest (upstream : List TaskState) (id : Text) : Type 0 where
  pub task : TaskState
  pub upstream_one : Among task upstream
  pub failed : is_failed task ≡ true
  pub named : task.task_id ≡ id
  pub earliest :
      (other : TaskState)
      → Among other upstream
      → is_failed other ≡ true
      → ends_before other.end_date task.end_date ≡ false

any_none : (p : TaskState → Bool) (ts : List TaskState) → keep p ts ≡ [] → any p ts ≡ false
any_none p [] h = refl
any_none p (t ∷ ts) h = elim (Bool-cases (p t)) [
  | inl e ↦ absurd (ground arith)
  | inr e ↦ let rest : keep p ts ≡ [] = ground arith in ground (arith, any_none p ts rest)
]

unended : (t : TaskState) (b : Option ℕ) → has_end t ≡ false → ends_before t.end_date b ≡ false
unended t b h = go t.end_date h
  where
    go :
        (o : Option ℕ) → (elim o [ none ↦ false | some _ ↦ true ]) ≡ false → ends_before o b ≡ false
    go none h = refl
    go (some a) h = absurd (ground arith)

-- Of the failed tasks, `dated` are those that have an end.
chosen :
    (upstream genuine dated : List TaskState)
    → keep is_failed upstream ≡ genuine
    → keep has_end genuine ≡ dated
    → ((choose_failure genuine dated ≡ none) × (any is_failed upstream ≡ false))
      ⊎ ((t : TaskState) × (choose_failure genuine dated ≡ some t) × IsEarliest upstream t.task_id)
unfolding choose_failure
chosen upstream [] dated g d = inl (refl, any_none is_failed upstream g)
chosen upstream (t ∷ ts) [] g d =
    let here = keep-Among is_failed t upstream (subst (Among t) (sym g) (inl refl)) in
    inr (
      t,
      refl,
      record {
        task = t;
        upstream_one = here.0;
        failed = here.1;
        named = refl;
        earliest = λ u m f. elim (Bool-cases (has_end u)) [
          | inl e ↦ absurd (
              subst (Among u) d (
                Among-keep has_end u (t ∷ ts)
                  (subst (Among u) g (Among-keep is_failed u upstream m f)) e))
          | inr e ↦ unended u t.end_date e
        ];
      },
    )
chosen upstream (t ∷ ts) (one ∷ ds) g d =
    let first = first_to_end one ds in
    let in_dated = first_to_end-Among one ds in
    let in_genuine = keep-Among has_end first (t ∷ ts) (subst (Among first) (sym d) in_dated) in
    let here = keep-Among is_failed first upstream (subst (Among first) (sym g) in_genuine.0) in
    inr (
      first,
      refl,
      record {
        task = first;
        upstream_one = here.0;
        failed = here.1;
        named = refl;
        earliest = λ u m f. elim (Bool-cases (has_end u)) [
          | inl e ↦ first_to_end-AllLater one ds u (
              subst (Among u) d (
                Among-keep has_end u (t ∷ ts)
                  (subst (Among u) g (Among-keep is_failed u upstream m f)) e))
          | inr e ↦ unended u first.end_date e
        ];
      },
    )

-- The root failure of an upstream is none exactly where none of its tasks is `failed`; otherwise it is
-- the id of a task that is `failed` there, and no `failed` task of the upstream has ended before that
-- one (a task without an end counts as the last).
pub earliest-IsEarliest :
    (upstream : List TaskState)
    → ((earliest_genuine_failure upstream ≡ none) × (any is_failed upstream ≡ false))
      ⊎ ((id : Text) × (earliest_genuine_failure upstream ≡ some id) × IsEarliest upstream id)
unfolding earliest_genuine_failure
earliest-IsEarliest upstream =
    elim (chosen upstream (keep is_failed upstream) (keep has_end (keep is_failed upstream)) refl
      refl) [ inl h ↦ inl (ap id_of h.0, h.1) | inr h ↦ inr (h.0.task_id, ap id_of h.1, h.2) ]
