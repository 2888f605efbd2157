-- ===== src/Tools/Sql/Keywords.antt =====
-- About the check of a statement (src/dag_doctor/tools/sql.py, require_read_only).
use dag_doctor.Base.{
  ℕ, Text, Bool, true, false, any, List, [], ◌∷◌, ◌++◌, ◌≡◌, sym, ap, ◌∙◌, Bool-cases, ◌⊎◌, inl,
  inr, arith,
}
use dag_doctor.Core.Regex.{lower, is_word}
use dag_doctor.Tools.Sql.{
  ends_word, keyword_at, has_keyword, write_keywords, is_read, has_char, Verdict, accepted, judge,
  stripped, require_read_only,
}

abbrev pub IsIn : Text → List Text → Type 0
IsIn k [] = ⊥
IsIn k (j ∷ js) = (k ≡ j) ⊎ IsIn k js

abbrev pub in_lower : Text → Text
in_lower [] = []
in_lower (c ∷ s) = lower c ∷ in_lower s

-- The last character of a text, or the one before it.
abbrev pub last_or : ℕ → Text → ℕ
last_or prev [] = prev
last_or prev (c ∷ s) = last_or c s

keyword_at_self :
    (word post : Text) → ends_word post ≡ true → keyword_at (in_lower word) (word ++ post) ≡ true
unfolding keyword_at
keyword_at_self [] post h = h
keyword_at_self (c ∷ word) post h = ground (arith, keyword_at_self word post h)

any-IsIn : (p : Text → Bool) (k : Text) (ks : List Text) → IsIn k ks → p k ≡ true → any p ks ≡ true
any-IsIn p k [] h e = absurd h
any-IsIn p k (j ∷ js) (inl q) e = rw (← q) (rw e)
any-IsIn p k (j ∷ js) (inr h) e = ground (arith, any-IsIn p k js h e)

has_keyword-occurs :
    (keywords : List Text) (prev c : ℕ) (pre word post : Text)
    → IsIn (in_lower (c ∷ word)) keywords
    → is_word (last_or prev pre) ≡ false
    → ends_word post ≡ true
    → has_keyword keywords prev (pre ++ ((c ∷ word) ++ post)) ≡ true
unfolding has_keyword
has_keyword-occurs keywords prev c [] word post h before behind = ground (
  arith,
  any-IsIn (λ k. keyword_at k ((c ∷ word) ++ post)) (in_lower (c ∷ word)) keywords h
      (keyword_at_self (c ∷ word) post behind),
)
has_keyword-occurs keywords prev c (d ∷ pre) word post h before behind =
    ground (arith, has_keyword-occurs keywords d c pre word post h before behind)

abbrev text_of : Text → Verdict → Text
text_of t (accepted s) = s
text_of t _ = t

accepted_injective : (t s : Text) → accepted t ≡ accepted s → t ≡ s
accepted_injective t s e = ap (text_of t) e

judge-accepted :
    (t s : Text)
    → judge t ≡ accepted s
    → (t ≡ s)
      × (has_char 59 t ≡ false)
      × (is_read t ≡ true)
      × (has_keyword write_keywords 32 t ≡ false)
unfolding judge
judge-accepted t s e = elim (Bool-cases (has_char 59 t)) [
  | inl semicolon ↦ absurd (cc e)
  | inr single ↦ elim (Bool-cases (is_read t)) [
    | inr no_read ↦ absurd (cc e)
    | inl reads ↦ elim (Bool-cases (has_keyword write_keywords 32 t)) [
      | inl writes ↦ absurd (cc e)
      | inr writes_not ↦ (accepted_injective t s cc, single, reads, writes_not)
    ]
  ]
]

words_occur :
    (t pre : Text) (c : ℕ) (word post : Text)
    → t ≡ pre ++ ((c ∷ word) ++ post)
    → is_word (last_or 32 pre) ≡ false
    → ends_word post ≡ true
    → has_keyword write_keywords 32 t ≡ false
    → ¬ IsIn (in_lower (c ∷ word)) write_keywords
words_occur t pre c word post split before behind none_found forbidden =
    let found : has_keyword write_keywords 32 t ≡ true =
      rw split (has_keyword-occurs write_keywords 32 c pre word post forbidden before behind) in
    absurd cc

-- An accepted statement is the stripped text it was given, has no semicolon and reads first; and a
-- word of it, with a word boundary on both sides, is in no spelling of case a write keyword.
pub require_read_only-IsSafe :
    (sql s pre : Text) (c : ℕ) (word post : Text)
    → require_read_only sql ≡ accepted s
    → s ≡ pre ++ ((c ∷ word) ++ post)
    → is_word (last_or 32 pre) ≡ false
    → ends_word post ≡ true
    → (s ≡ stripped sql)
      × (has_char 59 s ≡ false)
      × (is_read s ≡ true)
      × ¬ IsIn (in_lower (c ∷ word)) write_keywords
unfolding require_read_only
require_read_only-IsSafe sql s pre c word post e split before behind =
    let (same, single, reads, writes_not) = judge-accepted (stripped sql) s e in
    (
      sym same,
      rw (← same) single,
      rw (← same) reads,
      λ forbidden.
          words_occur (stripped sql) pre c word post (same ∙ split) before behind writes_not
            forbidden,
    )
