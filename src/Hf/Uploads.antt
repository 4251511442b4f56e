-- ===== src/Hf/Uploads.antt =====
-- hf/_uploader/plan.py and hf/_upload_state_files.py: the operations of a commit, and the state directory
-- of the upload queue. A path is its text; a file is its content.
pub mod Store
pub mod Envelopes
pub mod Resume
pub mod Attempts
pub mod Queue
use osm_polygon_wikidata_onl.Prelude.{
  ℕ, ◌+◌, max, Bool, true, false, ◌&&◌, ◌||◌, not, List, [], ◌∷◌, ◌++◌, Option, none, some, is_some,
  if◌then◌else◌, nat_beq, ltb, all, is_empty, Str, codes, str_eq, ◌==◌, nat_eq, Eq, ◌↔◌, ◌≡◌, arith,
  str_beq, str_beq_iff, nat_beq_iff, Dict, get, has, Result, Raised, ok, err, value_error, guard,
  ◌>>◌, ◌>>=◌,
}
use osm_polygon_wikidata_onl.Json.{Json, null, boolean, number, fraction, text, array, object}
use osm_polygon_wikidata_onl.Domain.Chars.{is_decimal, split}
use osm_polygon_wikidata_onl.Domain.Values.{ℤ, pos, negsuc, padded, int_of}
use osm_polygon_wikidata_onl.Domain.Values

pub record PublicationOp : Type 0 where
  pub action : Str
  pub path_in_repo : Str
  pub local_path : Option Str
  pub snapshot_path : Option Str

abbrev pub add_action : Str
add_action = codes "add"

abbrev pub delete_action : Str
delete_action = codes "delete"

unfoldable pub validate_action : Str → Result (Unit {0})
validate_action action = guard (action == add_action || action == delete_action) value_error

unfoldable pub validate_local_path : Str → Option Str → Result (Unit {0})
validate_local_path action local_path =
    guard (not (action == add_action && not (is_some local_path))) value_error
    >> guard (not (action == delete_action && is_some local_path)) value_error

unfoldable pub validate_snapshot_path : Str → Option Str → Result (Unit {0})
validate_snapshot_path action snapshot_path =
    guard (not (action == delete_action && is_some snapshot_path)) value_error

-- The constructor with `__post_init__`.
unfoldable pub publication_op : Str → Str → Option Str → Option Str → Result PublicationOp
unfolding validate_action validate_local_path validate_snapshot_path
publication_op action path_in_repo local_path snapshot_path =
    validate_action action
    >> validate_local_path action local_path
    >> validate_snapshot_path action snapshot_path
    >> ok (record {
      action = action;
      path_in_repo = path_in_repo;
      local_path = local_path;
      snapshot_path = snapshot_path;
    })

-- A name in the directory that ends in `.json`: `numbered n` is the text `f"{n:06d}.json"`, and
-- `named` any other.
pub data StateName : Type 0 where
  numbered : ℕ → StateName
  named : Str → StateName

unfoldable pub name_text : StateName → Str
unfolding padded
name_text (numbered n) = padded 6 n ++ codes ".json"
name_text (named name) = name

abbrev pub state_name_beq : StateName → StateName → Bool
state_name_beq (numbered a) (numbered b) = nat_beq a b
state_name_beq (named a) (named b) = str_beq a b
state_name_beq _ _ = false

pub state_name_beq_iff : (a b : StateName) → (state_name_beq a b ≡ true) ↔ (a ≡ b)
state_name_beq_iff (numbered a) (numbered b) = ground (arith, nat_beq_iff a b)
state_name_beq_iff (numbered a) (named b) = ground arith
state_name_beq_iff (named a) (numbered b) = ground arith
state_name_beq_iff (named a) (named b) = ground (arith, str_beq_iff a b)

instance abbrev pub state_name_eq : Eq StateName
state_name_eq = record { beq = state_name_beq; beq_iff = state_name_beq_iff }

abbrev pub Payload : Type 0
Payload = Dict Str Json

-- The state directory, and the files that operations name. The high-water mark is none when its file
-- is missing or holds no integer; an envelope is none when it is no JSON object.
pub record Disk : Type 0 where
  pub highwater : Option ℤ
  pub envelopes : Dict StateName (Option Payload)
  pub files : Dict Str Str

-- What the code uses of its surroundings: its directory, the hash of a content, whether a resolved path
-- is inside another, and `str` of a JSON value.
pub record Platform : Type 0 where
  pub state_dir : Str
  pub hash_file : Str → Str
  pub is_inside : Str → Str → Bool
  -- what the write of the high-water mark replies when the legacy envelope of a name is upgraded
  pub upgrade_marked : StateName → Result (Unit {0})
  pub str_of : Json → Str

abbrev pub not_negative : ℤ → ℕ
not_negative (pos n) = n
not_negative (negsuc n) = 0

unfoldable pub read_highwater : Option ℤ → ℕ
read_highwater none = 0
read_highwater (some value) = not_negative value

-- The digits of a name that `SEQUENCE_FILE` matches, read by `int`.
number_in : Result ℤ → Option ℕ
number_in (ok n) = some (not_negative n)
number_in (err e) = none

before_suffix : Str → Option Str
before_suffix [] = none
before_suffix (c ∷ cs) =
    let rest = before_suffix cs in
    if (c ∷ cs) == codes ".json" then some [] else elim rest [ none ↦ none | some r ↦ some (c ∷ r) ]

unfoldable pub sequence_in_name : Str → Option ℕ
unfolding before_suffix number_in
sequence_in_name name = elim (before_suffix name) [
  | none ↦ none
  | some digits ↦
      if not (is_empty digits) && all is_decimal digits
      then number_in (int_of (Values.text digits))
      else none
]

-- `isinstance(sequence, int) and not isinstance(sequence, bool)`
unfoldable pub sequence_of_json : Option Json → ℕ
sequence_of_json (some (number n)) = not_negative n
sequence_of_json _ = 0

unfoldable pub sequence_of_payload : Option Payload → ℕ
unfolding sequence_of_json
sequence_of_payload none = 0
sequence_of_payload (some payload) = sequence_of_json (get (codes "sequence") payload)

abbrev or_else : ℕ → Option ℕ → ℕ
or_else d none = d
or_else d (some n) = n

unfoldable pub sequence_from_state_path : StateName → Option Payload → ℕ
unfolding sequence_in_name sequence_of_payload
sequence_from_state_path (numbered n) payload = n
sequence_from_state_path (named name) payload =
    or_else (sequence_of_payload payload) (sequence_in_name name)

unfoldable pub scanned_sequence : Dict StateName (Option Payload) → ℕ
unfolding sequence_from_state_path
scanned_sequence [] = 0
scanned_sequence ((name, payload) ∷ rest) =
    max (sequence_from_state_path name payload) (scanned_sequence rest)

unfoldable pub next_sequence_from_state_dir : Disk → ℕ
unfolding read_highwater scanned_sequence
next_sequence_from_state_dir disk =
    max (read_highwater disk.highwater) (scanned_sequence disk.envelopes) + 1

unfoldable pub required_string : Payload → Str → Result Str
required_string entry key = elim (get key entry) [
  | some (text value) ↦ ok value
  | _ ↦ err value_error
]

unfoldable pub positive_sequence : Option Json → Result ℕ
positive_sequence (some (number (pos n))) = guard (ltb 0 n) value_error >> ok n
positive_sequence _ = err value_error

unfoldable pub current_sequence : Payload → Result ℕ
unfolding positive_sequence
current_sequence payload = positive_sequence (get (codes "sequence") payload)

abbrev pub is_text : Option Json → Bool
is_text (some (text t)) = true
is_text _ = false

abbrev pub is_array : Option Json → Bool
is_array (some (array t)) = true
is_array _ = false

unfoldable pub is_legacy_envelope : Payload → Bool
is_legacy_envelope payload =
    not (has (codes "contract_version") payload)
    && is_text (get (codes "message") payload)
    && is_array (get (codes "ops") payload)

unfoldable pub snapshots_root : Platform → Str
snapshots_root p = p.state_dir ++ codes "/snapshots"

unfoldable pub snapshot_dir_for_sequence : Platform → ℕ → Str
unfolding snapshots_root padded
snapshot_dir_for_sequence p sequence = snapshots_root p ++ (codes "/" ++ padded 6 sequence)

abbrev last_of : Str → List Str → Str
last_of d [] = d
last_of d (part ∷ parts) = last_of part parts

-- `path.name`
unfoldable pub file_name : Str → Str
unfolding split
file_name path = last_of [] (split b'/' path)
