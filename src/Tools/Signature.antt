-- ===== src/Tools/Signature.antt =====
-- The tokens that tell one failure from another (src/dag_doctor/tools/similar_incidents.py,
-- signature_tokens). The regular expressions are written out as scans over the code points, for ASCII
-- text.
use dag_doctor.Base.{
  ℕ, zero, suc, ◌-◌, ◌==◌, ltb, leb, Text, codes, has_text, sorted_set, Bool, true, not, ◌&&◌, ◌||◌,
  List, [], ◌∷◌, ◌++◌, map, keep, length, if◌then◌else◌,
}
use dag_doctor.Core.Regex.{lower, is_alpha, is_digit, is_word}

abbrev is_hex : ℕ → Bool
is_hex c = is_digit c || leb 97 (lower c) && leb (lower c) 102

-- How many characters of a class a text starts with.
unfoldable pub run_of : (ℕ → Bool) → Text → ℕ
run_of p [] = 0
run_of p (c ∷ s) = let rest = run_of p s in if p c then suc rest else 0

abbrev pub no_word_next : Text → Bool
no_word_next [] = true
no_word_next (c ∷ s) = not (is_word c)

-- `[0-9a-f]{n}` and what has to follow it, of which `ending` gives the length.
unfoldable pub exactly_hex : ℕ → (Text → ℕ) → Text → ℕ
exactly_hex zero ending s = ending s
exactly_hex (suc n) ending [] = 0
exactly_hex (suc n) ending (c ∷ s) =
    let rest = exactly_hex n ending s in if is_hex c && ltb 0 rest then suc rest else 0

unfoldable pub dash_then : (Text → ℕ) → Text → ℕ
dash_then ending [] = 0
dash_then ending (c ∷ s) = let rest = ending s in if c == 45 && ltb 0 rest then suc rest else 0

-- The end of the last group: its last digit, and a word boundary.
unfoldable pub last_hex : Text → ℕ
last_hex [] = 0
last_hex (c ∷ s) = if is_hex c && no_word_next s then 1 else 0

-- The length of a UUID at the start of a text, or 0.
unfoldable pub uuid_length : Text → ℕ
unfolding exactly_hex dash_then last_hex
uuid_length s =
    exactly_hex 8
      (dash_then (
        exactly_hex 4 (
          dash_then
            (exactly_hex 4 (dash_then (exactly_hex 4 (dash_then (exactly_hex 11 last_hex))))))))
      s

abbrev drop_run : ℕ → Text → Text
drop_run zero s = s
drop_run (suc n) [] = []
drop_run (suc n) (c ∷ s) = drop_run n s

-- The length of a hexadecimal literal, or 0.
unfoldable pub literal_length : Text → ℕ
unfolding run_of
literal_length (z ∷ x ∷ s) =
    let digits = run_of is_hex s in
    if z == 48 && lower x == 120 && ltb 0 digits && no_word_next (drop_run digits s)
    then suc (suc digits)
    else 0
literal_length _ = 0

-- `[\d_.:+-]`
abbrev is_numeric : ℕ → Bool
is_numeric c = is_digit c || c == 95 || c == 46 || c == 58 || c == 43 || c == 45

unfoldable pub number_length : Text → ℕ
unfolding run_of
number_length [] = 0
number_length (c ∷ s) = if is_digit c then suc (run_of is_numeric s) else 0

-- `pattern.sub(" ", text)` for a pattern that starts at a word boundary with a word character: `prev`
-- is the character before, and `skip` is what is left of a match.
unfoldable pub substitute : (Text → ℕ) → ℕ → ℕ → Text → Text
substitute found prev skip [] = []
substitute found prev (suc skip) (c ∷ s) = substitute found c skip s
substitute found prev zero (c ∷ s) =
    let n = if is_word prev then 0 else found (c ∷ s) in
    if n == 0 then c ∷ substitute found c 0 s else 32 ∷ substitute found c (n - 1) s

-- `normalise_signature`; its joining of the words again leaves the tokens as they are.
unfoldable pub normalise_signature : Text → Text
unfolding substitute uuid_length literal_length number_length
normalise_signature raw =
    substitute number_length 32 0 (substitute literal_length 32 0 (substitute uuid_length 32 0 raw))

abbrev pub is_token_start : ℕ → Bool
is_token_start c = is_alpha c || c == 95

abbrev pub is_token_part : ℕ → Bool
is_token_part c = is_token_start c || is_digit c

-- A token that has ended, in lower case, if it is long enough.
unfoldable pub emit : Text → List Text → List Text
emit token rest = if leb 3 (length token) then map lower token ∷ rest else rest

-- `_TOKEN.findall`: `token` is what has been read of a token.
unfoldable pub tokens_from : Text → Text → List Text
unfolding emit
tokens_from token [] = emit token []
tokens_from [] (c ∷ s) = if is_token_start c then tokens_from (c ∷ []) s else tokens_from [] s
tokens_from (t ∷ ts) (c ∷ s) =
    if is_token_part c then tokens_from (t ∷ (ts ++ c ∷ [])) s else emit (t ∷ ts) (tokens_from [] s)

abbrev pub stopwords : List Text
stopwords = map codes (
    "the" ∷ "and" ∷ "for" ∷ "with" ∷ "from" ∷ "that" ∷ "this" ∷ "was" ∷ "were" ∷ "not" ∷ "none"
    ∷ "error" ∷ "exception" ∷ "traceback" ∷ "most" ∷ "recent" ∷ "call" ∷ "last" ∷ "line" ∷ "file"
    ∷ "self" ∷ "return" ∷ "raise" ∷ "during" ∷ "handling" ∷ "above" ∷ "another" ∷ "occurred"
    ∷ "airflow" ∷ "python" ∷ "site" ∷ "packages" ∷ "task" ∷ "run" ∷ "def" ∷ "cls" ∷ [])

-- `signature_tokens`, as an ordered list with no token twice.
unfoldable pub signature_tokens : Text → List Text
unfolding normalise_signature tokens_from
signature_tokens raw =
    sorted_set (keep (λ t. not (has_text t stopwords)) (tokens_from [] (normalise_signature raw)))
