-- ===== src/Tools/Schema/Renames.antt =====
-- About the pairing of removed and added columns (src/dag_doctor/tools/schema_inspect.py,
-- _likely_renames).
use dag_doctor.Base.{
  ◌≡◌, refl, ap, ◌∙◌, arith, Bool-cases, Option-cases, inl, inr, true, false, none, some, List, [],
  ◌∷◌, map, find, Text, same_text, has_text, same_text_eq, same_text_refl, Ascending,
  AllAfter-absent,
}
use dag_doctor.Tools.Schema.Available.{
  has_text-without, has_text-without_other, without-Ascending, has_text-without_same, find-holds,
  find-none,
}
use dag_doctor.Tools.Schema.{Entry, RenamedColumn, type_of, without, paired, likely_renames}

abbrev pub froms : List RenamedColumn → List Text
froms rs = map (λ r. r.likely_from) rs

abbrev pub tos : List RenamedColumn → List Text
tos rs = map (λ r. r.likely_to) rs

-- No value is there twice.
abbrev pub NoRepeat : List Text → Type 0
NoRepeat [] = Unit {0}
NoRepeat (x ∷ xs) = (has_text x xs ≡ false) × NoRepeat xs

module _ (was now : List Entry) where
  -- Each pair is of a removed and an available column, both of the type that it names.
  abbrev pub AllPaired : List Text → List Text → List RenamedColumn → Type 0
  AllPaired available removed [] = Unit {0}
  AllPaired available removed (r ∷ rs) =
      (has_text r.likely_from removed ≡ true)
      × (has_text r.likely_to available ≡ true)
      × (type_of was r.likely_from ≡ r.type_name)
      × (type_of now r.likely_to ≡ r.type_name)
      × AllPaired available removed rs

  -- A pairing to which no pair can be added.
  pub record IsMaximalMatching (available removed : List Text) (rs : List RenamedColumn)
      : Type 0 where
    pub all_paired : AllPaired available removed rs
    pub froms_once : NoRepeat (froms rs)
    pub tos_once : NoRepeat (tos rs)
    pub maximal :
        (gone name : Text)
        → has_text gone removed ≡ true
        → has_text gone (froms rs) ≡ false
        → has_text name available ≡ true
        → has_text name (tos rs) ≡ false
        → same_text (type_of now name) (type_of was gone) ≡ false

  AllPaired-later :
      (m gone : Text) (available removed : List Text) (rs : List RenamedColumn)
      → AllPaired (without m available) removed rs
      → AllPaired available (gone ∷ removed) rs
  AllPaired-later m gone available removed [] h = tt
  AllPaired-later m gone available removed (r ∷ rs) h = (
    ground arith,
    has_text-without r.likely_to m available h.1,
    h.2,
    h.3,
    AllPaired-later m gone available removed rs h.4,
  )

  AllPaired-skip :
      (gone : Text) (available removed : List Text) (rs : List RenamedColumn)
      → AllPaired available removed rs
      → AllPaired available (gone ∷ removed) rs
  AllPaired-skip gone available removed [] h = tt
  AllPaired-skip gone available removed (r ∷ rs) h =
      (ground arith, h.1, h.2, h.3, AllPaired-skip gone available removed rs h.4)

  froms_within :
      (t : Text) (available removed : List Text) (rs : List RenamedColumn)
      → AllPaired available removed rs
      → has_text t removed ≡ false
      → has_text t (froms rs) ≡ false
  froms_within t available removed [] h k = refl
  froms_within t available removed (r ∷ rs) h k = elim (Bool-cases (same_text t r.likely_from)) [
    | inl e ↦
        let q = ap (λ z. has_text z removed) (same_text_eq t r.likely_from e) in
        absurd (ground arith)
    | inr e ↦ rw e (froms_within t available removed rs h.4 k)
  ]

  tos_within :
      (t : Text) (available removed : List Text) (rs : List RenamedColumn)
      → AllPaired available removed rs
      → has_text t available ≡ false
      → has_text t (tos rs) ≡ false
  tos_within t available removed [] h k = refl
  tos_within t available removed (r ∷ rs) h k = elim (Bool-cases (same_text t r.likely_to)) [
    | inl e ↦
        let q = ap (λ z. has_text z available) (same_text_eq t r.likely_to e) in
        absurd (ground arith)
    | inr e ↦ rw e (tos_within t available removed rs h.4 k)
  ]

  -- A removed column for which there is no match.
  unmatched-IsMaximalMatching :
      (gone : Text) (available removed : List Text) (rs : List RenamedColumn)
      → find (λ name. same_text (type_of now name) (type_of was gone)) available ≡ none
      → IsMaximalMatching available removed rs
      → IsMaximalMatching available (gone ∷ removed) rs
  unmatched-IsMaximalMatching gone available removed rs e h = record {
    all_paired = AllPaired-skip gone available removed rs h.all_paired;
    froms_once = h.froms_once;
    tos_once = h.tos_once;
    maximal = λ g a in_removed unpaired in_available untaken. elim (Bool-cases (same_text g gone)) [
      | inl q ↦
          ap (λ z. same_text (type_of now a) (type_of was z)) (same_text_eq g gone q)
          ∙ find-none _ available a e in_available
      | inr q ↦
          let earlier : has_text g removed ≡ true = ground arith in
          h.maximal g a earlier unpaired in_available untaken
    ];
  }

  matched-IsMaximalMatching :
      (gone m : Text) (available removed : List Text) (rs : List RenamedColumn)
      → find (λ name. same_text (type_of now name) (type_of was gone)) available ≡ some m
      → Ascending available
      → Ascending (gone ∷ removed)
      → IsMaximalMatching (without m available) removed rs
      → IsMaximalMatching available
          (gone ∷ removed)
          (record { likely_from = gone; likely_to = m; type_name = type_of was gone } ∷ rs)
  matched-IsMaximalMatching gone m available removed rs e asc once h =
      let found = find-holds _ available m e in
      record {
        all_paired = (
          ground (arith, same_text_refl gone),
          found.1,
          refl,
          same_text_eq (type_of now m) (type_of was gone) found.0,
          AllPaired-later m gone available removed rs h.all_paired,
        );
        froms_once = (
          froms_within gone (without m available) removed rs h.all_paired
              (AllAfter-absent gone removed once.0),
          h.froms_once,
        );
        tos_once = (
          tos_within m (without m available) removed rs h.all_paired
              (has_text-without_same m available asc),
          h.tos_once,
        );
        maximal = λ g a in_removed unpaired in_available untaken.
            let earlier : has_text g removed ≡ true = ground arith in
            let open_from : has_text g (froms rs) ≡ false = ground arith in
            let open_to : has_text a (tos rs) ≡ false = ground arith in
            let other : same_text a m ≡ false = ground arith in
            h.maximal g a earlier open_from
              (has_text-without_other a m available other in_available) open_to;
      }

  -- For available and removed columns that are each in ascending order, so without repetition, the
  -- likely renames pair each column once at most, always a removed one with an available one of the same type, and they leave no such pair
  -- out: a removed and an available column that are both left over have different types.
  pub likely_renames-IsMaximalMatching :
      (available removed : List Text)
      → Ascending available
      → Ascending removed
      → IsMaximalMatching available removed (likely_renames was now available removed)
  unfolding likely_renames paired
  likely_renames-IsMaximalMatching available [] asc once = record {
    all_paired = tt;
    froms_once = tt;
    tos_once = tt;
    maximal = λ g a in_removed unpaired in_available untaken. absurd (ground arith);
  }
  likely_renames-IsMaximalMatching available (gone ∷ removed) asc once =
      elim (Option-cases
        (find (λ name. same_text (type_of now name) (type_of was gone)) available)) [
          | inl e ↦ rw e (
              unmatched-IsMaximalMatching gone available removed _ e
                (likely_renames-IsMaximalMatching available removed asc once.1))
          | inr found ↦ rw found.1 (
              matched-IsMaximalMatching gone found.0 available removed _ found.1 asc once (
                likely_renames-IsMaximalMatching (without found.0 available) removed
                  (without-Ascending found.0 available asc) once.1))
        ]
