-- ===== src/Tools/Sql.antt =====
-- Read-only query execution, enforced in code (src/dag_doctor/tools/sql.py). The regular expressions
-- are written out as scans over the code points, for ASCII text.
pub mod Identifiers
pub mod Keywords
use dag_doctor.Base.{
  ℕ, zero, suc, ◌==◌, ◌*◌, min, ltb, String, Text, codes, decimal, has_text, Bool, true, false, not,
  ◌&&◌, ◌||◌, Option, none, some, List, [], ◌∷◌, ◌++◌, all, any, take, length, if◌then◌else◌,
}
use dag_doctor.Core.Regex.{lower, is_space, is_alpha, is_digit, is_word}

-- `str.lstrip()`, `rstrip` and `strip`.
unfoldable pub lstrip : Text → Text
lstrip [] = []
lstrip (c ∷ s) = let rest = lstrip s in if is_space c then rest else c ∷ s

-- What stays of `c ∷ s` when the characters of a set are dropped from its end.
keep_end : (ℕ → Bool) → ℕ → Text → Text
keep_end p c [] = if p c then [] else c ∷ []
keep_end p c (d ∷ s) = c ∷ d ∷ s

unfoldable pub rstrip : (ℕ → Bool) → Text → Text
unfolding keep_end
rstrip p [] = []
rstrip p (c ∷ s) = keep_end p c (rstrip p s)

unfoldable pub strip : Text → Text
unfolding lstrip rstrip
strip s = rstrip is_space (lstrip s)

abbrev pub is_start : ℕ → Bool
is_start c = is_alpha c || c == 95

abbrev pub is_part : ℕ → Bool
is_part c = is_alpha c || is_digit c || c == 95 || c == 36

-- The rest of an identifier, of at most `room` characters. As in Python, `$` also matches before a
-- line feed that ends the text.
unfoldable pub rest_matches : ℕ → Text → Bool
rest_matches room [] = true
rest_matches zero (c ∷ s) = c == 10 && length s == 0
rest_matches (suc room) (c ∷ s) = is_part c && rest_matches room s || c == 10 && length s == 0

-- `_IDENTIFIER.match`
unfoldable pub is_identifier : Text → Bool
unfolding rest_matches
is_identifier [] = false
is_identifier (c ∷ s) = is_start c && rest_matches 62 s

pub record TableRef : Type 0 where
  pub schema : Option Text
  pub name : Text

abbrev pub onto : ℕ → List Text → List Text
onto c [] = (c ∷ []) ∷ []
onto c (part ∷ parts) = (c ∷ part) ∷ parts

-- `text.split(".")`
unfoldable pub split_dots : Text → List Text
split_dots [] = [] ∷ []
split_dots (c ∷ s) = let parts = split_dots s in if c == 46 then [] ∷ parts else onto c parts

unfoldable pub ref_of : List Text → Option TableRef
ref_of (name ∷ []) = some (record { schema = none; name = name })
ref_of (schema ∷ name ∷ []) = some (record { schema = some schema; name = name })
ref_of _ = none

-- `TableRef.parse`; `none` is the `ReadOnlyViolationError`.
unfoldable pub parse : Text → Option TableRef
unfolding ref_of
parse raw =
    let parts = split_dots (strip raw) in
    if ltb 2 (length parts) || not (all is_identifier parts) then none else ref_of parts

unfoldable pub qualify : Option Text → Text → Text
qualify none name = name
qualify (some []) name = name
qualify (some (c ∷ s)) name = (c ∷ s) ++ (46 ∷ name)

unfoldable pub qualified : TableRef → Text
unfolding qualify
qualified ref = qualify ref.schema ref.name

unfoldable pub validate_identifier : Text → Option Text
validate_identifier raw = if is_identifier (strip raw) then some (strip raw) else none

-- A word boundary, `\b`, before the text that is left.
abbrev pub ends_word : Text → Bool
ends_word [] = true
ends_word (c ∷ s) = not (is_word c)

-- A keyword in any case, with a word boundary behind it.
unfoldable pub keyword_at : Text → Text → Bool
keyword_at [] s = ends_word s
keyword_at (k ∷ ks) [] = false
keyword_at (k ∷ ks) (c ∷ s) = lower c == k && keyword_at ks s

-- One of the keywords somewhere, between word boundaries; `prev` is the character before.
unfoldable pub has_keyword : List Text → ℕ → Text → Bool
unfolding keyword_at
has_keyword keywords prev [] = false
has_keyword keywords prev (c ∷ s) =
    not (is_word prev) && any (λ k. keyword_at k (c ∷ s)) keywords || has_keyword keywords c s

abbrev pub write_keywords : List Text
write_keywords =
    codes "insert"
    ∷ codes "update"
    ∷ codes "delete"
    ∷ codes "drop"
    ∷ codes "alter"
    ∷ codes "create"
    ∷ codes "truncate"
    ∷ codes "grant"
    ∷ codes "revoke"
    ∷ codes "copy"
    ∷ codes "merge"
    ∷ codes "vacuum"
    ∷ codes "reindex"
    ∷ codes "refresh"
    ∷ codes "lock"
    ∷ codes "call"
    ∷ codes "do"
    ∷ codes "commit"
    ∷ codes "rollback"
    ∷ codes "savepoint"
    ∷ []

abbrev pub read_keywords : List Text
read_keywords = codes "select" ∷ codes "with" ∷ []

-- `_READ_PREFIX.match`
unfoldable pub is_read : Text → Bool
unfolding lstrip keyword_at
is_read s = any (λ k. keyword_at k (lstrip s)) read_keywords

-- The statement, or one of the three violations.
pub data Verdict : Type 0 where
  accepted : Text → Verdict
  multiple_statements not_a_read write_keyword : Verdict

abbrev pub has_char : ℕ → Text → Bool
has_char k [] = false
has_char k (c ∷ s) = c == k || has_char k s

unfoldable pub stripped : Text → Text
stripped sql = strip (rstrip (λ c. c == 59) (strip sql))

unfoldable pub judge : Text → Verdict
judge s =
    if has_char 59 s
    then multiple_statements
    else if not (is_read s)
    then not_a_read
    else if has_keyword write_keywords 32 s
    then write_keyword
    else accepted s

unfoldable pub require_read_only : Text → Verdict
unfolding judge
require_read_only sql = judge (stripped sql)

abbrev pub max_rows_ceiling : ℕ
max_rows_ceiling = 1000

-- What a `fetch_all` sends: `_harden` first, then the statement.
pub data Sent : Type 0 where
  set_read_only : Sent
  set_timeout : (milliseconds : ℕ) → Sent
  execute : Sent

unfoldable pub harden : Bool → ℕ → List Sent
harden postgresql timeout_s =
    if postgresql then set_read_only ∷ set_timeout (timeout_s * 1000) ∷ [] else []

unfoldable pub fetch_all {ℓ} : {A : Type ℓ} → Bool → ℕ → ℕ → List A → List Sent × List A
unfolding harden
fetch_all postgresql timeout_s max_rows rows =
    (harden postgresql timeout_s ++ execute ∷ [], take (min max_rows max_rows_ceiling) rows)
