-- ===== src/Tools/Schema/Drift.antt =====
-- About the difference between two sets of columns (src/dag_doctor/tools/schema_inspect.py, _diff).
use dag_doctor.Base.{
  ◌≡◌, refl, sym, ap, ◌∙◌, arith, ◌↔◌, Bool-cases, Option-cases, inl, inr, true, false, not, ◌&&◌,
  Option, none, some, List, [], ◌∷◌, keep, is_some, ℕ, Text, same_text, has_text, same_text_eq,
  same_text_refl, has_text-sorted_set, has_text-keep, if◌then◌else◌,
}
use dag_doctor.Tools.Schema.{
  Entry, ChangedColumn, SchemaDiff, or_else, type_in, type_of, or_empty, names, is_empty, changes,
  added_names, removed_names, shared_names, diff_entries,
}

-- A dict has the names of its entries.
is_some-type_in : (es : List Entry) (t : Text) → is_some (type_in es t) ≡ has_text t (names es)
unfolding type_in or_else
is_some-type_in [] t = refl
is_some-type_in (e ∷ es) t = elim (Option-cases (type_in es t)) [
  | inl q ↦ rw q (ground (arith, is_some-type_in es t))
  | inr q ↦ rw q.1 (ground (arith, is_some-type_in es t))
]

abbrev pub named : ChangedColumn → Text
named c = c.name

-- What `changed` says of a column: its two types.
abbrev pub change_of : List ChangedColumn → Text → Option (Text × Text)
change_of [] t = none
change_of (c ∷ cs) t =
    let rest = change_of cs t in if same_text t c.name then some (c.was, c.now) else rest

change_of-changes :
    (was now : List Entry) (ts : List Text) (t : Text)
    → change_of (changes was now ts) t ≡ (
        if has_text t ts && not (same_text (type_of was t) (type_of now t))
        then some (type_of was t, type_of now t)
        else none)
unfolding changes
change_of-changes was now [] t = refl
change_of-changes was now (s ∷ ts) t =
    elim (Bool-cases (same_text (type_of was s) (type_of now s))) [
      | inl k ↦ rw k (elim (Bool-cases (same_text t s)) [
        | inl e ↦ rw (same_text_eq t s e, k, change_of-changes was now ts s) (ground arith)
        | inr e ↦ rw e (change_of-changes was now ts t)
      ])
      | inr k ↦ rw k (elim (Bool-cases (same_text t s)) [
        | inl e ↦ rw (same_text_eq t s e, k, same_text_refl s) refl
        | inr e ↦ rw e (change_of-changes was now ts t)
      ])
    ]

-- What a change of a column's type is, by its types before and after.
abbrev pub retyped : Option Text → Option Text → Option (Text × Text)
retyped (some a) (some b) = if same_text a b then none else some (a, b)
retyped _ _ = none

retyped_both :
    (o p : Option Text)
    → (if is_some o && is_some p && not (same_text (or_empty o) (or_empty p))
        then some (or_empty o, or_empty p)
        else none)
      ≡ retyped o p
retyped_both none none = refl
retyped_both none (some b) = refl
retyped_both (some a) none = refl
retyped_both (some a) (some b) = ground arith

agree :
    (o p : Option Text)
    → is_some p && not (is_some o) ≡ false
    → is_some o && not (is_some p) ≡ false
    → retyped o p ≡ none
    → o ≡ p
agree none none h k e = refl
agree none (some b) h k e = absurd (ground arith)
agree (some a) none h k e = absurd (ground arith)
agree (some a) (some b) h k e = elim (Bool-cases (same_text a b)) [
  | inl q ↦ ap some (same_text_eq a b q)
  | inr q ↦ absurd (ground arith)
]

is_some-agree : (o : Option Text) → is_some o && not (is_some o) ≡ false
is_some-agree none = refl
is_some-agree (some a) = refl

retyped-agree : (o : Option Text) → retyped o o ≡ none
retyped-agree none = refl
retyped-agree (some a) = rw (same_text_refl a) refl

has_text-none : (xs : List Text) → ((t : Text) → has_text t xs ≡ false) → is_empty xs ≡ true
has_text-none [] h = refl
has_text-none (x ∷ xs) h = absurd (ground (arith, h x, same_text_refl x))

change_of-none :
    (cs : List ChangedColumn) → ((t : Text) → change_of cs t ≡ none) → is_empty cs ≡ true
change_of-none [] h = refl
change_of-none (c ∷ cs) h = absurd (ground (arith, h c.name, same_text_refl c.name))

has_text-empty : (t : Text) (xs : List Text) → is_empty xs ≡ true → has_text t xs ≡ false
has_text-empty t [] h = refl
has_text-empty t (x ∷ xs) h = absurd (ground arith)

change_of-empty : (t : Text) (cs : List ChangedColumn) → is_empty cs ≡ true → change_of cs t ≡ none
change_of-empty t [] h = refl
change_of-empty t (c ∷ cs) h = absurd (ground arith)

module _ (was now : List Entry) where
  pub has_text-added :
      (t : Text)
      → has_text t (added_names was now) ≡ is_some (type_in now t) && not (is_some (type_in was t))
  unfolding added_names
  has_text-added t =
      rw
        (
          has_text-sorted_set t (keep (λ s. not (has_text s (names was))) (names now)),
          has_text-keep (λ s. not (has_text s (names was))) t (names now),
          is_some-type_in now t,
          is_some-type_in was t,
        )
        refl

  has_text-removed :
      (t : Text)
      → has_text t (removed_names was now)
        ≡ is_some (type_in was t) && not (is_some (type_in now t))
  unfolding removed_names
  has_text-removed t =
      rw
        (
          has_text-sorted_set t (keep (λ s. not (has_text s (names now))) (names was)),
          has_text-keep (λ s. not (has_text s (names now))) t (names was),
          is_some-type_in now t,
          is_some-type_in was t,
        )
        refl

  has_text-shared :
      (t : Text)
      → has_text t (shared_names was now) ≡ is_some (type_in was t) && is_some (type_in now t)
  unfolding shared_names
  has_text-shared t =
      rw
        (
          has_text-sorted_set t (keep (λ s. has_text s (names now)) (names was)),
          has_text-keep (λ s. has_text s (names now)) t (names was),
          is_some-type_in now t,
          is_some-type_in was t,
        )
        refl

  change_of-changed :
      (t : Text)
      → change_of (changes was now (shared_names was now)) t
        ≡ retyped (type_in was t) (type_in now t)
  change_of-changed t =
      change_of-changes was now (shared_names was now) t
      ∙ (ap
            (λ b.
              if b && not (same_text (type_of was t) (type_of now t))
              then some (type_of was t, type_of now t)
              else none)
            (has_text-shared t)
          ∙ retyped_both (type_in was t) (type_in now t))

  -- A diff that says of every column what became of it.
  pub record IsDiff (d : SchemaDiff) : Type 0 where
    pub added_exactly :
        (t : Text) → has_text t d.added ≡ is_some (type_in now t) && not (is_some (type_in was t))
    pub removed_exactly :
        (t : Text) → has_text t d.removed ≡ is_some (type_in was t) && not (is_some (type_in now t))
    pub changed_exactly :
        (t : Text) → change_of d.changed t ≡ retyped (type_in was t) (type_in now t)
    pub no_drift_iff : (d.has_drift ≡ false) ↔ ((t : Text) → type_in was t ≡ type_in now t)

  same_columns :
      (added removed : List Text) (changed : List ChangedColumn)
      → ((t : Text) → has_text t added ≡ is_some (type_in now t) && not (is_some (type_in was t)))
      → ((t : Text) → has_text t removed ≡ is_some (type_in was t) && not (is_some (type_in now t)))
      → ((t : Text) → change_of changed t ≡ retyped (type_in was t) (type_in now t))
      → (not (is_empty added && is_empty removed && is_empty changed) ≡ false)
        ↔ ((t : Text) → type_in was t ≡ type_in now t)
  same_columns added removed changed a r c = (
    λ h t.
        let none_added : is_empty added ≡ true = ground arith in
        let none_removed : is_empty removed ≡ true = ground arith in
        let none_changed : is_empty changed ≡ true = ground arith in
        agree (type_in was t) (type_in now t) (sym (a t) ∙ has_text-empty t added none_added)
          (sym (r t) ∙ has_text-empty t removed none_removed)
          (sym (c t) ∙ change_of-empty t changed none_changed),
    λ e.
        let none_added = has_text-none added (λ t.
          a t
          ∙ (ap (λ o. is_some (type_in now t) && not (is_some o)) (e t)
              ∙ is_some-agree (type_in now t))) in
        let none_removed = has_text-none removed (λ t.
          r t
          ∙ (ap (λ o. is_some o && not (is_some (type_in now t))) (e t)
              ∙ is_some-agree (type_in now t))) in
        let none_changed = change_of-none changed (λ t.
          c t ∙ (ap (λ o. retyped o (type_in now t)) (e t) ∙ retyped-agree (type_in now t))) in
        ground arith,
  )

  -- Against a stored shape, `added`, `removed` and `changed` name exactly the columns that only the
  -- table has, that only the stored shape has, and that both have with different types, the last with
  -- the two types; and there is no drift exactly if both have the same columns with the same types.
  pub diff_entries-IsDiff :
      (connection table : Text) (captured_at : ℕ)
      → IsDiff (diff_entries connection table captured_at was now)
  unfolding diff_entries
  diff_entries-IsDiff connection table captured_at = record {
    added_exactly = has_text-added;
    removed_exactly = has_text-removed;
    changed_exactly = change_of-changed;
    no_drift_iff =
        same_columns (added_names was now) (removed_names was now)
          (changes was now (shared_names was now)) has_text-added has_text-removed
          change_of-changed;
  }
