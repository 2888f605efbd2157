-- ===== src/Core/Regex.antt =====
-- The regular expressions of Python's `re` that the source uses, by derivatives: whether a pattern
-- matches does not depend on the order in which alternatives are tried. Characters are code points,
-- and the classes are those of ASCII.
use dag_doctor.Base.{
  ℕ, ◌+◌, ◌==◌, leb, Text, codes, String, Bool, true, false, ◌&&◌, ◌||◌, List, [], ◌∷◌,
  if◌then◌else◌, ◌≡◌, refl,
}

pub data Regex : Type 0 where
  never empty : Regex
  char : (ℕ → Bool) → Regex
  seq : Regex → Regex → Regex
  alt : Regex → Regex → Regex
  star : Regex → Regex

-- Sequences and alternatives that drop what can no longer match, so that derivatives stay small.
join : Regex → Regex → Regex
join never s = never
join empty s = s
join r s = seq r s

either : Regex → Regex → Regex
either never s = s
either r never = r
either r s = alt r s

unfoldable pub nullable : Regex → Bool
nullable never = false
nullable empty = true
nullable (char p) = false
nullable (seq r s) = nullable r && nullable s
nullable (alt r s) = nullable r || nullable s
nullable (star r) = true

unfoldable pub deriv : ℕ → Regex → Regex
unfolding join either nullable
deriv c never = never
deriv c empty = never
deriv c (char p) = if p c then empty else never
deriv c (seq r s) =
    let skipped = deriv c s in
    if nullable r then either (join (deriv c r) s) skipped else join (deriv c r) s
deriv c (alt r s) = either (deriv c r) (deriv c s)
deriv c (star r) = join (deriv c r) (star r)

-- The whole text matches.
unfoldable pub full_match : Regex → Text → Bool
unfolding deriv
full_match r [] = nullable r
full_match r (c ∷ s) = full_match (deriv c r) s

-- Some prefix of the text matches: `re.match`.
unfoldable pub prefix_match : Regex → Text → Bool
unfolding deriv
prefix_match r [] = nullable r
prefix_match r (c ∷ s) = nullable r || prefix_match (deriv c r) s

-- Some part of the text matches: `re.search`.
unfoldable pub search_match : Regex → Text → Bool
unfolding prefix_match
search_match r [] = prefix_match r []
search_match r (c ∷ s) = prefix_match r (c ∷ s) || search_match r s

abbrev pub lower : ℕ → ℕ
lower c = if leb 65 c && leb c 90 then c + 32 else c

abbrev pub is_space : ℕ → Bool
is_space c = c == 32 || leb 9 c && leb c 13 || leb 28 c && leb c 31

abbrev pub is_alpha : ℕ → Bool
is_alpha c = leb 65 c && leb c 90 || leb 97 c && leb c 122

abbrev pub is_digit : ℕ → Bool
is_digit c = leb 48 c && leb c 57

-- `\w`
abbrev pub is_word : ℕ → Bool
is_word c = is_alpha c || is_digit c || c == 95

-- A literal under `re.I`.
abbrev pub literal : Text → Regex
literal [] = empty
literal (k ∷ s) = seq (char (λ c. lower c == lower k)) (literal s)

abbrev pub lit : String → Regex
lit s = literal (codes s)

abbrev pub any_of : List Regex → Regex
any_of [] = never
any_of (r ∷ rs) = alt r (any_of rs)

abbrev pub plus : Regex → Regex
plus r = seq r (star r)

abbrev pub optional : Regex → Regex
optional r = alt r empty

search_test : search_match (lit "memoryerror") (codes "a MemoryError: x") ≡ true
unfolding search_match
search_test = refl
