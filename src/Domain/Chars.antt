-- ===== src/Domain/Chars.antt =====
-- The methods of Python's `str` that the parsers use, over code points.
use osm_polygon_wikidata_onl.Prelude.{
  ℕ, ◌+◌, ◌≡◌, refl, ap, ◌∙◌, Bool, true, false, ◌&&◌, not, List, [], ◌∷◌, ◌++◌, arith, ltb, leb,
  if◌then◌else◌, Str, nat_beq_iff, all, any, contains, all-contains, nat_eq, ◌==◌,
}

-- `str.isspace` of one character: what `strip` removes.
unfoldable pub white_space : List ℕ
white_space =
    9 ∷ 10 ∷ 11 ∷ 12 ∷ 13 ∷ 28 ∷ 29 ∷ 30 ∷ 31 ∷ 32 ∷ 133 ∷ 160 ∷ 5760 ∷ 8192 ∷ 8193 ∷ 8194 ∷ 8195
    ∷ 8196 ∷ 8197 ∷ 8198 ∷ 8199 ∷ 8200 ∷ 8201 ∷ 8202 ∷ 8232 ∷ 8233 ∷ 8239 ∷ 8287 ∷ 12288 ∷ []

unfoldable pub is_space : ℕ → Bool
unfolding white_space
is_space c = contains white_space c

-- The zeros of the decimal digits of Unicode 15.0, each followed by its nine digits.
unfoldable pub decimal_zeros : List ℕ
decimal_zeros =
    48 ∷ 1632 ∷ 1776 ∷ 1984 ∷ 2406 ∷ 2534 ∷ 2662 ∷ 2790 ∷ 2918 ∷ 3046 ∷ 3174 ∷ 3302 ∷ 3430 ∷ 3558
    ∷ 3664 ∷ 3792 ∷ 3872 ∷ 4160 ∷ 4240 ∷ 6112 ∷ 6160 ∷ 6470 ∷ 6608 ∷ 6784 ∷ 6800 ∷ 6992 ∷ 7088
    ∷ 7232 ∷ 7248 ∷ 42528 ∷ 43216 ∷ 43264 ∷ 43472 ∷ 43504 ∷ 43600 ∷ 44016 ∷ 65296 ∷ 66720 ∷ 68912
    ∷ 69734 ∷ 69872 ∷ 69942 ∷ 70096 ∷ 70384 ∷ 70736 ∷ 70864 ∷ 71248 ∷ 71360 ∷ 71472 ∷ 71904 ∷ 72016
    ∷ 72784 ∷ 73040 ∷ 73120 ∷ 73552 ∷ 92768 ∷ 92864 ∷ 93008 ∷ 120782 ∷ 120792 ∷ 120802 ∷ 120812
    ∷ 120822 ∷ 123200 ∷ 123632 ∷ 124144 ∷ 125264 ∷ 130032 ∷ []

-- `\d` of a pattern over `str`
unfoldable pub is_decimal : ℕ → Bool
unfolding decimal_zeros
is_decimal c = any (λ z. leb z c && ltb c (z + 10)) decimal_zeros

cons_head : ℕ → List Str → List Str
cons_head c [] = (c ∷ []) ∷ []
cons_head c (part ∷ parts) = (c ∷ part) ∷ parts

-- `s.split(sep)` at one character: always one part more than there are separators
unfoldable pub split : ℕ → Str → List Str
unfolding cons_head
split sep [] = [] ∷ []
split sep (c ∷ cs) = let rest = split sep cs in if c == sep then [] ∷ rest else cons_head c rest

-- `sep.join(parts)`
unfoldable pub join : ℕ → List Str → Str
join sep [] = []
join sep (p ∷ []) = p
join sep (p ∷ q ∷ ps) = p ++ (sep ∷ join sep (q ∷ ps))

unfoldable pub lstrip : Str → Str
lstrip [] = []
lstrip (c ∷ cs) = let rest = lstrip cs in if is_space c then rest else c ∷ cs

rstrip_onto : ℕ → Str → Str
rstrip_onto c [] = if is_space c then [] else c ∷ []
rstrip_onto c (d ∷ ds) = c ∷ d ∷ ds

unfoldable pub rstrip : Str → Str
unfolding rstrip_onto
rstrip [] = []
rstrip (c ∷ cs) = rstrip_onto c (rstrip cs)

unfoldable pub strip : Str → Str
unfolding lstrip rstrip
strip s = rstrip (lstrip s)

-- `text.startswith(prefix)`
unfoldable pub starts_with : Str → Str → Bool
starts_with [] text = true
starts_with (p ∷ prefix) [] = false
starts_with (p ∷ prefix) (c ∷ text) = p == c && starts_with prefix text

pub is_space_lem : (c : ℕ) → is_space c ≡ contains white_space c
unfolding is_space
is_space_lem c = refl

white_space-not_decimal : all (λ w. not (is_decimal w)) white_space ≡ true
unfolding white_space is_decimal
white_space-not_decimal = refl

-- No white space is a decimal digit.
pub is_decimal_of_space : (c : ℕ) → is_space c ≡ true → is_decimal c ≡ false
is_decimal_of_space c h = ground (
  arith,
  all-contains (λ w. not (is_decimal w)) white_space c white_space-not_decimal,
  is_space_lem c,
)

-- A text with no white space is left as it is.
pub lstrip_lem : (s : Str) → any is_space s ≡ false → lstrip s ≡ s
unfolding lstrip
lstrip_lem [] h = refl
lstrip_lem (c ∷ cs) h = ground arith

pub rstrip_lem : (s : Str) → any is_space s ≡ false → rstrip s ≡ s
unfolding rstrip
rstrip_lem [] h = refl
rstrip_lem (c ∷ []) h = ground arith
rstrip_lem (c ∷ d ∷ ds) h = ground (arith, rstrip_lem (d ∷ ds))

pub strip_lem : (s : Str) → any is_space s ≡ false → strip s ≡ s
unfolding strip
strip_lem s h = ap rstrip (lstrip_lem s h) ∙ rstrip_lem s h

-- A part with no separator, put before a separator, is split off.
split-append :
    (sep : ℕ) (p rest : Str)
    → contains p sep ≡ false
    → split sep (p ++ (sep ∷ rest)) ≡ p ∷ split sep rest
unfolding split
split-append sep [] rest h = ground (arith, nat_beq_iff sep sep)
split-append sep (c ∷ cs) rest h = ground (arith, split-append sep cs rest)

split_of_part : (sep : ℕ) (p : Str) → contains p sep ≡ false → split sep p ≡ p ∷ []
unfolding split
split_of_part sep [] h = refl
split_of_part sep (c ∷ cs) h = ground (arith, split_of_part sep cs)

-- Splitting what was joined gives the parts back.
pub split-join :
    (sep : ℕ) (p : Str) (ps : List Str)
    → all (λ s. not (contains s sep)) (p ∷ ps) ≡ true
    → split sep (join sep (p ∷ ps)) ≡ p ∷ ps
unfolding join
split-join sep p [] h = split_of_part sep p (ground arith)
split-join sep p (q ∷ ps) h =
    split-append sep p (join sep (q ∷ ps)) (ground arith)
    ∙ ap (λ (t : List Str). p ∷ t) (split-join sep q ps (ground arith))
