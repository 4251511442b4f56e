-- ===== src/Domain/Values.antt =====
-- The cells of table rows, and what `str`, `int` and a comparison make of them.
use osm_polygon_wikidata_onl.Prelude.{
  ℕ, zero, suc, ◌+◌, ◌-◌, ◌*◌, ◌/◌, ◌%◌, ◌≡◌, refl, ◌↔◌, Bool, true, false, ◌&&◌, ◌||◌, List, [],
  ◌∷◌, Option, none, some, arith, ltb, leb, if◌then◌else◌, Str, codes, nat_beq, str_beq, length,
  ◌++◌, str_beq_iff, str_leq, str_leq_total, str_leq_trans, str_leq_antisym, Eq, Ord, Dict, get,
  str_eq, Result, ok, err, value_error, type_error,
}
use osm_polygon_wikidata_onl.Domain.Chars.{is_space, strip, decimal_zeros}

-- `negsuc n` is -(n + 1).
pub data ℤ : Type 0 where
  pos : ℕ → ℤ
  negsuc : ℕ → ℤ

-- A cell is null, an integer or a text, as in the Parquet columns.
pub data Value : Type 0 where
  null : Value
  int : ℤ → Value
  text : Str → Value

abbrev pub Row : Type 0
Row = Dict Str Value

abbrev pub int_beq : ℤ → ℤ → Bool
int_beq (pos a) (pos b) = nat_beq a b
int_beq (negsuc a) (negsuc b) = nat_beq a b
int_beq _ _ = false

abbrev pub int_leq : ℤ → ℤ → Bool
int_leq (pos a) (pos b) = leb a b
int_leq (negsuc a) (negsuc b) = leb b a
int_leq (pos a) (negsuc b) = false
int_leq (negsuc a) (pos b) = true

pub int_beq_iff : (a b : ℤ) → (int_beq a b ≡ true) ↔ (a ≡ b)
int_beq_iff a b = ground arith

instance abbrev pub int_eq : Eq ℤ
int_eq = record { beq = int_beq; beq_iff = int_beq_iff }

abbrev pub value_beq : Value → Value → Bool
value_beq null null = true
value_beq (int a) (int b) = int_beq a b
value_beq (text a) (text b) = str_beq a b
value_beq _ _ = false

pub value_beq_iff : (a b : Value) → (value_beq a b ≡ true) ↔ (a ≡ b)
value_beq_iff null b = ground arith
value_beq_iff (int a) null = ground arith
value_beq_iff (int a) (int b) = ground (arith, int_beq_iff a b)
value_beq_iff (int a) (text b) = ground arith
value_beq_iff (text a) null = ground arith
value_beq_iff (text a) (int b) = ground arith
value_beq_iff (text a) (text b) = ground (arith, str_beq_iff a b)

instance abbrev pub value_eq : Eq Value
value_eq = record { beq = value_beq; beq_iff = value_beq_iff }

-- Two cells of one type can be ordered by Python; across the types this order is never asked.
abbrev pub value_leq : Value → Value → Bool
value_leq null b = true
value_leq (int a) null = false
value_leq (int a) (int b) = int_leq a b
value_leq (int a) (text b) = true
value_leq (text a) (text b) = str_leq a b
value_leq (text a) _ = false

-- whether `<` between two different cells is defined
abbrev pub same_type : Value → Value → Bool
same_type null null = true
same_type (int a) (int b) = true
same_type (text a) (text b) = true
same_type _ _ = false

pub same_type_sym : (a b : Value) → same_type a b ≡ same_type b a
same_type_sym a b = ground arith

pub value_leq_total : (a b : Value) → (value_leq a b || value_leq b a) ≡ true
value_leq_total null b = refl
value_leq_total (int a) null = refl
value_leq_total (int a) (int b) = ground arith
value_leq_total (int a) (text b) = refl
value_leq_total (text a) null = refl
value_leq_total (text a) (int b) = refl
value_leq_total (text a) (text b) = str_leq_total a b

pub value_leq_trans :
    (a b c : Value) → value_leq a b ≡ true → value_leq b c ≡ true → value_leq a c ≡ true
value_leq_trans null b c h k = refl
value_leq_trans (int a) b null h k = ground arith
value_leq_trans (int a) b (int c) h k = ground arith
value_leq_trans (int a) b (text c) h k = refl
value_leq_trans (text a) null c h k = ground arith
value_leq_trans (text a) (int b) c h k = ground arith
value_leq_trans (text a) (text b) null h k = ground arith
value_leq_trans (text a) (text b) (int c) h k = ground arith
value_leq_trans (text a) (text b) (text c) h k = str_leq_trans a b c h k

pub value_leq_antisym : (a b : Value) → value_leq a b ≡ true → value_leq b a ≡ true → a ≡ b
value_leq_antisym null b h k = ground arith
value_leq_antisym (int a) b h k = ground arith
value_leq_antisym (text a) null h k = ground arith
value_leq_antisym (text a) (int b) h k = ground arith
value_leq_antisym (text a) (text b) h k = ground (arith, str_leq_antisym a b)

instance abbrev pub value_ord : Ord Value
value_ord = record {
  leq = value_leq;
  leq_total = value_leq_total;
  leq_trans = value_leq_trans;
  leq_antisym = value_leq_antisym;
}

-- `str(n)`: the fuel is one more than the number, and each digit divides it by ten
show_digits : ℕ → ℕ → Str → Str
show_digits zero n rest = rest
show_digits (suc fuel) n rest =
    let more = show_digits fuel (n / 10) ((48 + n % 10) ∷ rest) in
    if ltb n 10 then (48 + n) ∷ rest else more

unfoldable pub show_int : ℤ → Str
unfolding show_digits
show_int (pos n) = show_digits (suc n) n []
show_int (negsuc n) = b'-' ∷ show_digits (suc (suc n)) (suc n) []

abbrev zeros : ℕ → Str
zeros zero = []
zeros (suc n) = b'0' ∷ zeros n

-- `f"{n:0{width}d}"`
unfoldable pub padded : ℕ → ℕ → Str
padded width n = let digits = show_int (pos n) in zeros (width - length digits) ++ digits

-- `str(value)`
unfoldable pub str_of : Value → Str
unfolding show_int
str_of null = codes "None"
str_of (int n) = show_int n
str_of (text s) = s

digit_in : List ℕ → ℕ → Option ℕ
digit_in [] c = none
digit_in (z ∷ zs) c =
    let rest = digit_in zs c in if leb z c && ltb c (z + 10) then some (c - z) else rest

-- The digits of `int(text)`: an underscore may stand between two digits.
parse_digits : Bool → ℕ → Str → Option ℕ
unfolding digit_in
parse_digits after_digit acc [] = if after_digit then some acc else none
parse_digits after_digit acc (c ∷ cs) = elim (digit_in decimal_zeros c) [
  | some d ↦ parse_digits true (acc * 10 + d) cs
  | none ↦ if nat_beq c b'_' && after_digit then parse_digits false acc cs else none
]

negative : Option ℕ → Option ℤ
negative none = none
negative (some zero) = some (pos zero)
negative (some (suc n)) = some (negsuc n)

positive : Option ℕ → Option ℤ
positive none = none
positive (some n) = some (pos n)

signed : Str → Option ℤ
unfolding parse_digits negative positive
signed [] = none
signed (c ∷ cs) =
    if nat_beq c b'-'
    then negative (parse_digits false 0 cs)
    else if nat_beq c b'+'
    then positive (parse_digits false 0 cs)
    else positive (parse_digits false 0 (c ∷ cs))

int_of_text : Option ℤ → Result ℤ
int_of_text none = err value_error
int_of_text (some n) = ok n

-- `int(value)`, for a text of at most 4300 digits, Python's limit
unfoldable pub int_of : Value → Result ℤ
unfolding int_of_text signed
int_of null = err type_error
int_of (int n) = ok n
int_of (text s) = int_of_text (signed (strip s))

or_default : Value → Option Value → Value
or_default d none = d
or_default d (some v) = v

-- `row.get(key, default)`
unfoldable pub get_or : Str → Value → Row → Value
unfolding or_default
get_or key d row = or_default d (get key row)

conversions :
    (str_of (int (pos 1203)) ≡ codes "1203")
    × (str_of (int (negsuc 9)) ≡ codes "-10")
    × (int_of (text (codes " -1_203\t")) ≡ ok (negsuc 1202))
    × (int_of (text (codes "1__2")) ≡ err value_error)
    × (int_of (text (codes "")) ≡ err value_error)
unfolding str_of int_of strip is_space decimal_zeros
conversions = (refl, refl, refl, refl, refl)
