-- ===== src/Tools/Sql/Identifiers.antt =====
-- About table references (src/dag_doctor/tools/sql.py, TableRef).
use dag_doctor.Base.{
  ℕ, zero, suc, ◌==◌, ◌&&◌, ◌||◌, ltb, Text, Bool, true, false, Bool-cases, inl, inr, Option, none,
  some, all, List, [], ◌∷◌, ◌++◌, ◌≡◌, ap, sym, subst, ◌∙◌, ◌≤◌, ◌⊎◌, arith, refl, length,
}
use dag_doctor.Tools.Sql.{
  TableRef, parse, qualified, split_dots, strip, is_identifier, is_part, is_start, onto, ref_of,
  qualify, rest_matches,
}

-- `".".join(parts)`
abbrev join_dots : List Text → Text
join_dots [] = []
join_dots (part ∷ []) = part
join_dots (part ∷ next ∷ parts) = part ++ (46 ∷ join_dots (next ∷ parts))

join_dots-onto :
    (c : ℕ) (part : Text) (parts : List Text)
    → join_dots (onto c (part ∷ parts)) ≡ c ∷ join_dots (part ∷ parts)
join_dots-onto c part [] = refl
join_dots-onto c part (next ∷ parts) = refl

-- There is always a first part.
split_dots-cons : (s : Text) → (part : Text) × (parts : List Text) × (split_dots s ≡ part ∷ parts)
unfolding split_dots
split_dots-cons [] = ([], [], refl)
split_dots-cons (c ∷ s) =
    let (part, parts, e) = split_dots-cons s in
    elim (Bool-cases (c == 46)) [
      | inl dot ↦ ([], split_dots s, rw dot refl)
      | inr other ↦ (c ∷ part, parts, rw (other, e) refl)
    ]

join_dots-split_dots : (s : Text) → join_dots (split_dots s) ≡ s
unfolding split_dots
join_dots-split_dots [] = refl
join_dots-split_dots (c ∷ s) =
    let (part, parts, e) = split_dots-cons s in
    let ih : join_dots (part ∷ parts) ≡ s = ap join_dots (sym e) ∙ join_dots-split_dots s in
    elim (Bool-cases (c == 46)) [
      | inl dot ↦ let at_dot : 46 ≡ c = ground arith in rw (dot, e, ih) (ap (λ k. k ∷ s) at_dot)
      | inr other ↦ rw (other, e, join_dots-onto c part parts, ih) refl
    ]

-- At most 63 identifier characters, and perhaps a line feed behind them.
abbrev pub IsPlain : Text → Type 0
IsPlain s =
    (body : Text) × (1 ≤ length body)
    × (length body ≤ 63)
    × (all is_part body ≡ true)
    × ((s ≡ body) ⊎ (s ≡ body ++ (10 ∷ [])))

abbrev pub SchemaIsPlain : Option Text → Type 0
SchemaIsPlain none = Unit
SchemaIsPlain (some schema) = IsPlain schema

lone : (c : ℕ) (s : Text) → (c == 10 && length s == 0) ≡ true → c ∷ s ≡ 10 ∷ []
lone c [] h = ap (λ k. k ∷ []) (ground arith)
lone c (d ∷ s) h = absurd (ground arith)

both : (a b : Bool) → (a && b) ≡ true → (a ≡ true) × (b ≡ true)
both true b h = (refl, h)
both false b h = absurd cc

one_of : (a b : Bool) → (a || b) ≡ true → (a ≡ true) ⊎ (b ≡ true)
one_of true b h = inl refl
one_of false b h = inr h

onto_body :
    (c : ℕ) (s body : Text)
    → (s ≡ body) ⊎ (s ≡ body ++ (10 ∷ []))
    → (c ∷ s ≡ c ∷ body) ⊎ (c ∷ s ≡ (c ∷ body) ++ (10 ∷ []))
onto_body c s body (inl q) = inl (ap (λ t. c ∷ t) q)
onto_body c s body (inr q) = inr (ap (λ t. c ∷ t) q)

rest_matches-IsPart :
    (room : ℕ) (s : Text)
    → rest_matches room s ≡ true
    → (body : Text) × (length body ≤ room)
      × (all is_part body ≡ true)
      × ((s ≡ body) ⊎ (s ≡ body ++ (10 ∷ [])))
unfolding rest_matches
rest_matches-IsPart room [] h = ([], omega arith, refl, inl refl)
rest_matches-IsPart zero (c ∷ s) h = ([], omega arith, refl, inr (lone c s h))
rest_matches-IsPart (suc room) (c ∷ s) h =
    elim (one_of (is_part c && rest_matches room s) (c == 10 && length s == 0) h) [
      | inl more ↦
          let (part, rest) = both (is_part c) (rest_matches room s) more in
          let (body, short, parts, same) = rest_matches-IsPart room s rest in
          (c ∷ body, omega arith, rw (part, parts) refl, onto_body c s body same)
      | inr last ↦ ([], omega arith, refl, inr (lone c s last))
    ]

start_part : (c : ℕ) → is_start c ≡ true → is_part c ≡ true
start_part c h = ground arith

is_identifier-IsPlain : (s : Text) → is_identifier s ≡ true → IsPlain s
unfolding is_identifier
is_identifier-IsPlain [] h = absurd cc
is_identifier-IsPlain (c ∷ s) h =
    let (start, rest) = both (is_start c) (rest_matches 62 s) h in
    let (body, short, parts, same) = rest_matches-IsPart 62 s rest in
    (
      c ∷ body,
      omega arith,
      omega arith,
      rw (start_part c start, parts) refl,
      onto_body c s body same,
    )

abbrev IsMadeOf : Text → TableRef → Type 0
IsMadeOf raw ref = (qualified ref ≡ raw) × IsPlain ref.name × SchemaIsPlain ref.schema

abbrev or_else : Option TableRef → TableRef → TableRef
or_else none ref = ref
or_else (some made) ref = made

empty_part : (a : Bool) → (is_identifier [] && a) ≡ true → ⊥
unfolding is_identifier
empty_part a h = cc

ref_of-IsMadeOf :
    (parts : List Text) (ref : TableRef)
    → all is_identifier parts ≡ true
    → ref_of parts ≡ some ref
    → IsMadeOf (join_dots parts) ref
unfolding ref_of qualified qualify
ref_of-IsMadeOf [] ref valid h = absurd cc
ref_of-IsMadeOf (name ∷ []) ref valid h =
    subst (IsMadeOf name) (ap (λ o. or_else o ref) h)
      (refl, is_identifier-IsPlain name (both (is_identifier name) true valid).0, tt)
ref_of-IsMadeOf ([] ∷ name ∷ []) ref valid h =
    absurd (empty_part (is_identifier name && true) valid)
ref_of-IsMadeOf ((c ∷ schema) ∷ name ∷ []) ref valid h =
    let (first, rest) = both (is_identifier (c ∷ schema)) (is_identifier name && true) valid in
    subst (IsMadeOf ((c ∷ schema) ++ (46 ∷ name))) (ap (λ o. or_else o ref) h) (
      refl,
      is_identifier-IsPlain name (both (is_identifier name) true rest).0,
      is_identifier-IsPlain (c ∷ schema) first,
    )
ref_of-IsMadeOf (a ∷ b ∷ c ∷ parts) ref valid h = absurd cc

parse-accepted :
    (raw : Text) (ref : TableRef)
    → parse raw ≡ some ref
    → (all is_identifier (split_dots (strip raw)) ≡ true)
      × (ref_of (split_dots (strip raw)) ≡ some ref)
unfolding parse
parse-accepted raw ref h = elim (Bool-cases (all is_identifier (split_dots (strip raw)))) [
  | inl valid ↦ elim (Bool-cases (ltb 2 (length (split_dots (strip raw))))) [
    | inl long ↦ absurd cc
    | inr short ↦ (valid, cc)
  ]
  | inr bad ↦ elim (Bool-cases (ltb 2 (length (split_dots (strip raw))))) [
    | inl long ↦ absurd cc
    | inr short ↦ absurd cc
  ]
]

-- An accepted reference is written in SQL as the stripped text it was parsed from, and its parts
-- are made of at most 63 identifier characters, with at most a line feed behind them.
pub parse-IsFaithful :
    (raw : Text) (ref : TableRef)
    → parse raw ≡ some ref
    → (qualified ref ≡ strip raw) × IsPlain ref.name × SchemaIsPlain ref.schema
parse-IsFaithful raw ref h =
    let parts = split_dots (strip raw) in
    let (valid, made) = parse-accepted raw ref h in
    let (same, name, schema) = ref_of-IsMadeOf parts ref valid made in
    (same ∙ join_dots-split_dots (strip raw), name, schema)
