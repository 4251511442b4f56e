-- ===== src/Json.antt =====
-- What `json.loads` returns, and the views that the code has of it.
use osm_polygon_wikidata_onl.Prelude.{
  arith, str_beq, get, ◌≡◌, refl, ap, Bool, true, false, List, [], ◌∷◌, Option, none, some, Str,
  str_eq, Dict, ◌==◌, not, ◌||◌, nat_beq, is_empty, codes,
}
use osm_polygon_wikidata_onl.Domain.Values.{ℤ, pos, negsuc}

-- `fraction` is a number that is no integer, by its text.
mutual
  pub data Json : Type 0 where
    null : Json
    boolean : Bool → Json
    number : ℤ → Json
    fraction : Str → Json
    text : Str → Json
    array : Items → Json
    object : Fields → Json

  pub data Items : Type 0 where
    no_items : Items
    item : Json → Items → Items

  pub data Fields : Type 0 where
    no_fields : Fields
    field : Str → Json → Fields → Fields

-- a list as an array, and back
abbrev pub items : List Json → Items
items [] = no_items
items (value ∷ values) = item value (items values)

abbrev pub listed : Items → List Json
listed no_items = []
listed (item value values) = value ∷ listed values

-- a dictionary as an object, and back
abbrev pub fields : Dict Str Json → Fields
fields [] = no_fields
fields ((key, value) ∷ rest) = field key value (fields rest)

abbrev pub entries : Fields → Dict Str Json
entries no_fields = []
entries (field key value rest) = (key, value) ∷ entries rest

-- `json.dumps` and `json.loads` keep the text, and None is null
abbrev pub optional : Option Str → Json
optional none = null
optional (some t) = text t

pub listed-items : (values : List Json) → listed (items values) ≡ values
listed-items [] = refl
listed-items (value ∷ values) = ap (λ rest. value ∷ rest) (listed-items values)

pub entries-fields : (d : Dict Str Json) → entries (fields d) ≡ d
entries-fields [] = refl
entries-fields ((key, value) ∷ rest) = ap (λ tail. (key, value) ∷ tail) (entries-fields rest)

-- `bool(value)`
unfoldable pub truthy : Json → Bool
truthy null = false
truthy (boolean b) = b
truthy (number (pos n)) = not (nat_beq n 0)
truthy (number (negsuc n)) = true
truthy (fraction t) = not (t == codes "0.0" || t == codes "-0.0")
truthy (text t) = not (is_empty t)
truthy (array no_items) = false
truthy (array (item value rest)) = true
truthy (object no_fields) = false
truthy (object (field key value rest)) = true

-- `value == t` for a text
unfoldable pub equals_text : Str → Json → Bool
equals_text t (text s) = str_beq t s
equals_text t _ = false

-- whether a key is there with a value that passes the test
abbrev pub has_value : (Json → Bool) → Str → Fields → Bool
has_value test key o = elim (get key (entries o)) [ none ↦ false | some v ↦ test v ]

value_there :
    (test : Json → Bool) (found : Option Json) (value : Json)
    → found ≡ some value
    → test value ≡ true
    → elim found [ none ↦ false | some v ↦ test v ] ≡ true
value_there test none value h k = cc
value_there test (some v) value h k = ground (arith, h, k, ap test {x = v} {y = value})

pub has_value_of_get :
    (test : Json → Bool) (key : Str) (o : Fields) (value : Json)
    → get key (entries o) ≡ some value
    → test value ≡ true
    → has_value test key o ≡ true
has_value_of_get test key o value h k = value_there test (get key (entries o)) value h k
