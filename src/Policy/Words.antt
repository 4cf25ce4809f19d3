-- ===== src/Policy/Words.antt =====
-- The text operations by which policies look for words: `lower`, `strip` and `in`.
use dawn_kestrel.Prelude.{
  ℕ, ◌+◌, ◌≡◌, refl, ap, ◌↔◌, inl, inr, Bool, true, not, ◌||◌, ◌&&◌, [], ◌∷◌, ◌++◌, leb, is_empty,
  if◌then◌else◌, Bool-cases, Text, starts_with, starts_with-append, append-starts_with, nat_beq,
  nat_eq, arith,
}
use dawn_kestrel.Policy.{any}

-- `str.lower` as far as a search for words of ASCII letters can tell: besides the ASCII capitals only
-- two characters have ASCII letters in their lower case, the dotted capital I and the Kelvin sign.
unfoldable pub lower : Text → Text
lower [] = []
lower (c ∷ s) =
    let rest = lower s in
    if leb b'A' c && leb c b'Z'
    then (c + 32) ∷ rest
    else if nat_beq c 0x130
    then b'i' ∷ 0x307 ∷ rest
    else if nat_beq c 0x212A
    then b'k' ∷ rest
    else c ∷ rest

-- `str.isspace` of a character
unfoldable pub is_space : ℕ → Bool
is_space c =
    (leb 9 c && leb c 13)
    || (leb 28 c && leb c 32)
    || nat_beq c 0x85
    || nat_beq c 0xA0
    || nat_beq c 0x1680
    || (leb 0x2000 c && leb c 0x200A)
    || nat_beq c 0x2028
    || nat_beq c 0x2029
    || nat_beq c 0x202F
    || nat_beq c 0x205F
    || nat_beq c 0x3000

unfoldable pub lstrip : Text → Text
lstrip [] = []
lstrip (c ∷ s) = if is_space c then lstrip s else c ∷ s

unfoldable pub rstrip : Text → Text
rstrip [] = []
rstrip (c ∷ s) = let rest = rstrip s in if is_space c && is_empty rest then [] else c ∷ rest

unfoldable pub strip : Text → Text
unfolding lstrip rstrip
strip s = rstrip (lstrip s)

-- `word in s`
unfoldable pub is_infix : Text → Text → Bool
is_infix word [] = is_empty word
is_infix word (c ∷ s) = starts_with (c ∷ s) word || is_infix word s

-- The word stands somewhere.
abbrev pub Occurs : Text → Text → Type 0
Occurs word s = (front back : Text) × (s ≡ front ++ (word ++ back))

occurs : (word s : Text) → is_infix word s ≡ true → Occurs word s
unfolding is_infix
occurs [] [] h = ([], [], refl)
occurs (w ∷ word) [] h = cc h
occurs word (c ∷ s) h = elim (Bool-cases (starts_with (c ∷ s) word)) [
  | inl here ↦ let (rest, e) = starts_with-append (c ∷ s) word here in ([], rest, e)
  | inr later ↦
      let (front, back, e) = occurs word s (rw later at h) in (c ∷ front, back, ap (◌∷◌ c) e)
]

infix_of : (word front back : Text) → is_infix word (front ++ (word ++ back)) ≡ true
unfolding is_infix
infix_of [] [] [] = refl
infix_of word (c ∷ front) back = ground (arith, infix_of word front back)
infix_of [] [] (c ∷ back) = refl
infix_of (w ∷ word) [] back = ground (arith, append-starts_with (w ∷ word) back)

pub is_infix-Occurs : (word s : Text) → (is_infix word s ≡ true) ↔ Occurs word s
is_infix-Occurs word s = (occurs word s, λ (front, back, e). rw e (infix_of word front back))

-- a character that is no white space
abbrev pub has_ink : Text → Bool
has_ink s = any (λ c. not (is_space c)) s

is_empty-rstrip : (s : Text) → is_empty (rstrip s) ≡ not (has_ink s)
unfolding rstrip
is_empty-rstrip [] = refl
is_empty-rstrip (c ∷ s) = ground (arith, is_empty-rstrip s)

has_ink-lstrip : (s : Text) → has_ink (lstrip s) ≡ has_ink s
unfolding lstrip
has_ink-lstrip [] = refl
has_ink-lstrip (c ∷ s) = ground (arith, has_ink-lstrip s)

pub is_empty-strip : (s : Text) → is_empty (strip s) ≡ not (has_ink s)
unfolding strip
is_empty-strip s = rw (is_empty-rstrip (lstrip s)) (ap not (has_ink-lstrip s))
