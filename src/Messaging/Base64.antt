-- ===== src/Messaging/Base64.antt =====
-- Python's `base64.b64encode` and `b64decode`, by which a dead letter carries the original bytes
-- (`DeadLetterMessage` of src/dag_doctor/messaging/schemas.py).
use dag_doctor.Base.{
  ℕ, ◌+◌, ◌-◌, ◌*◌, ◌/◌, ◌%◌, ◌<◌, ltb, ◌==◌, false, Text, codes, List, [], ◌∷◌, ◌++◌, ◌≡◌, refl,
  ap, arith, if◌then◌else◌,
}

-- The alphabet: `A`-`Z`, `a`-`z`, `0`-`9`, `+`, `/`.
digit : ℕ → ℕ
digit n =
    if ltb n 26
    then n + 65
    else if ltb n 52
    then n + 71
    else if ltb n 62
    then n - 4
    else if n == 62
    then 43
    else 47

value : ℕ → ℕ
value c =
    if c == 43
    then 62
    else if c == 47
    then 63
    else if ltb c 58
    then c + 4
    else if ltb c 91
    then c - 65
    else c - 71

value-digit : (n : ℕ) → n < 64 → value (digit n) ≡ n
unfolding value digit
value-digit n h = ground arith

digit-ne-pad : (n : ℕ) → n < 64 → (digit n == 61) ≡ false
unfolding digit
digit-ne-pad n h = ground arith

abbrev pad : ℕ
pad = 61

pub encode : List ℕ → Text
unfolding digit
encode [] = []
encode (a ∷ []) = digit (a / 4) ∷ digit (a % 4 * 16) ∷ pad ∷ pad ∷ []
encode (a ∷ b ∷ []) = digit (a / 4) ∷ digit (a % 4 * 16 + b / 16) ∷ digit (b % 16 * 4) ∷ pad ∷ []
encode (a ∷ b ∷ c ∷ rest) =
    digit (a / 4)
    ∷ digit (a % 4 * 16 + b / 16)
    ∷ digit (b % 16 * 4 + c / 64)
    ∷ digit (c % 64)
    ∷ encode rest

-- The bytes of one group of four digits, by how many of them are padding.
group : ℕ → ℕ → ℕ → ℕ → List ℕ
unfolding value
group p q r s =
    let first = value p * 4 + value q / 16 in
    let second = value q % 16 * 16 + value r / 4 in
    let third = value r % 4 * 64 + value s in
    if r == pad
    then first ∷ []
    else if s == pad
    then first ∷ second ∷ []
    else first ∷ second ∷ third ∷ []

pub decode : Text → List ℕ
unfolding group
decode (p ∷ q ∷ r ∷ s ∷ rest) = group p q r s ++ decode rest
decode _ = []

abbrev pub Bytes : List ℕ → Type 0
Bytes [] = Unit {0}
Bytes (b ∷ bs) = (b < 256) × Bytes bs

hello : encode (codes "hello") ≡ codes "aGVsbG8="
unfolding encode
hello = refl

group_one : (a : ℕ) → a < 256 → group (digit (a / 4)) (digit (a % 4 * 16)) pad pad ≡ a ∷ []
unfolding group
group_one a h = ground (arith, value-digit (a / 4), value-digit (a % 4 * 16))

group_two :
    (a b : ℕ)
    → a < 256
    → b < 256
    → group (digit (a / 4)) (digit (a % 4 * 16 + b / 16)) (digit (b % 16 * 4)) pad ≡ a ∷ b ∷ []
unfolding group
group_two a b h k =
    let r = b % 16 * 4 in
    rw (digit-ne-pad r (omega arith))
      (ground (arith, value-digit (a / 4), value-digit (a % 4 * 16 + b / 16), value-digit r))

group_three :
    (a b c : ℕ)
    → a < 256
    → b < 256
    → c < 256
    → group
        (digit (a / 4))
        (digit (a % 4 * 16 + b / 16))
        (digit (b % 16 * 4 + c / 64))
        (digit (c % 64))
      ≡ a ∷ b ∷ c ∷ []
unfolding group
group_three a b c h k l =
    rw
      (
        digit-ne-pad (b % 16 * 4 + c / 64) (omega arith),
        digit-ne-pad (c % 64) (omega arith),
        value-digit (a / 4) (omega arith),
        value-digit (a % 4 * 16 + b / 16) (omega arith),
        value-digit (b % 16 * 4 + c / 64) (omega arith),
        value-digit (c % 64) (omega arith),
      )
      (ground arith)

-- Decoding an encoding gives the bytes back, whatever their number.
pub decode-encode : (bs : List ℕ) → Bytes bs → decode (encode bs) ≡ bs
unfolding decode encode
decode-encode [] h = refl
decode-encode (a ∷ []) h = rw (group_one a h.0)
decode-encode (a ∷ b ∷ []) h = rw (group_two a b h.0 h.1.0)
decode-encode (a ∷ b ∷ c ∷ rest) h =
    rw (group_three a b c h.0 h.1.0 h.1.1.0) (ap (λ t. a ∷ b ∷ c ∷ t) (decode-encode rest h.1.1.1))
