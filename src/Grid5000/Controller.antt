-- ===== src/Grid5000/Controller.antt =====
-- grid5000/sentence_controller_policy.py and _context.py: the record of a batch, what the world outside
-- replies to the controller, and actions that change the ledger and may raise.
pub mod Process
pub mod Ledger
pub mod Run
pub mod Triples
pub mod Keeping
pub mod States
pub mod Saved
pub mod Submissions
pub mod Success
use osm_polygon_wikidata_onl.Prelude.{
  ℕ, zero, suc, ◌+◌, ◌-◌, ◌/◌, ◌%◌, Bool, true, false, ◌&&◌, ◌||◌, List, [], ◌∷◌, ◌++◌, Option,
  none, some, if◌then◌else◌, Str, codes, length, leb, str_eq, ◌==◌, option_eq, nat_eq,
}
use osm_polygon_wikidata_onl.Domain.Values.{padded}

-- `other` is a state that the controller does not know
pub data BatchState : Type 0 where
  planned submitted running failed ready_to_publish published cancelled : BatchState
  other_state : Str → BatchState

pub record Batch : Type 0 where
  pub index : ℕ
  pub stems : List Str
  pub state : BatchState
  pub attempt : ℕ
  pub oar_job_id : Option Str
  pub remote_job_root : Option Str
  pub remote_cleaned : Bool
  pub hf_commit : Option Str
  pub error : Option Str

-- An exception: a command that ran out of time, an interrupt from the keyboard, or any other, by the name
-- of its class.
pub data Fault : Type 0 where
  timeout interrupt : Fault
  exception : Str → Fault

pub data Reply (A : Type 0) : Type 0 where
  replied : A → Reply A
  raised : Fault → Reply A

-- The commands that leave a trace outside; the last is the removal of the run's remote directory.
pub data Event : Type 0 where
  job_submitted job_deleted batch_published batch_verified tree_removed run_tree_removed : Event

-- The batch in memory, the batch as the ledger's file has it, and the commands so far.
pub record World : Type 0 where
  pub batch : Batch
  pub saved : Batch
  pub events : List Event

pub record Receipt : Type 0 where
  pub job_id : Option Str
  pub source_commit : Option Str
  pub model_id : Option Str
  pub model_revision : Option Str
  pub stems : Option (List Str)
  pub status : Option Str
  pub error_type : Option Str

pub record Settings : Type 0 where
  pub remote_run_root : Str
  pub source_commit : Str
  pub model_id : Str
  pub model_revision : Str

-- What each outside call replies, if it is made.
pub record Replies : Type 0 where
  pub namespace_made : Reply (Unit {0})
  pub tree_staged : Reply (Unit {0})
  pub tree_uploaded : Reply (Unit {0})
  pub policy_before : Reply (Unit {0})
  -- the job's identifier in what `oarsub` printed, if there is one
  pub job_queued : Reply (Option Str)
  pub policy_after : Reply (Unit {0})
  -- the answers to the polling of the job
  pub statuses : List (Reply (Str × Option ℕ))
  pub downloaded : Reply (Unit {0})
  pub receipt_exists : Bool
  -- none when the receipt cannot be read as an object
  pub receipt : Option Receipt
  pub partial_imported : Reply (Unit {0})
  pub success_imported : Reply (Unit {0})
  pub baseline_kept : Reply (Unit {0})
  pub publication : Reply Str
  pub verification : Reply (Unit {0})
  pub tree_removal : Reply (Unit {0})
  pub job_deletion : Reply (Unit {0})

-- An action on the world, which gives a value or raises.
abbrev pub Action : Type 0 → Type 0
Action A = World → Reply A × World

abbrev pub continue : {A B : Type 0} → (A → Action B) → Reply A × World → Reply B × World
continue f (replied a, w) = f a w
continue f (raised e, w) = (raised e, w)

infixl 5 ◌>>=◌ ◌>>◌
unfoldable pub ◌>>=◌ : {A B : Type 0} → Action A → (A → Action B) → Action B
m >>= f = λ w. continue f (m w)

abbrev pub ◌>>◌ : {B : Type 0} → Action (Unit {0}) → Action B → Action B
m >> k = m >>= λ _. k

abbrev pub done : Action (Unit {0})
done w = (replied tt, w)

abbrev pub throw : {A : Type 0} → Fault → Action A
throw e w = (raised e, w)

abbrev pub call : {A : Type 0} → Reply A → Action A
call reply w = (reply, w)

-- a call that leaves a trace, whatever it replies
abbrev pub traced : {A : Type 0} → Event → Reply A → Action A
traced event reply w = (reply, record w { events = w.events ++ (event ∷ []) })

-- `except Exception as error`: an interrupt is not caught
abbrev pub handle : {A : Type 0} → (Fault → Action A) → Reply A × World → Reply A × World
handle h (replied a, w) = (replied a, w)
handle h (raised interrupt, w) = (raised interrupt, w)
handle h (raised timeout, w) = h timeout w
handle h (raised (exception name), w) = h (exception name) w

unfoldable pub try : {A : Type 0} → Action A → (Fault → Action A) → Action A
try m h w = handle h (m w)

abbrev pub modify : (Batch → Batch) → Action (Unit {0})
modify f w = (replied tt, record w { batch = f w.batch })

-- `_write_ledger`
unfoldable pub write_ledger : Action (Unit {0})
write_ledger w = (replied tt, record w { saved = w.batch })

-- a change of the batch that is written at once
unfoldable pub save : (Batch → Batch) → Action (Unit {0})
unfolding write_ledger
save f = modify f >> write_ledger

-- `ACTIVE_STATES`
unfoldable pub is_active : BatchState → Bool
is_active submitted = true
is_active running = true
is_active _ = false

abbrev pub controller_run_error : Fault
controller_run_error = exception (codes "ControllerRunError")

-- `type(error).__name__`
unfoldable pub class_name : Fault → Str
class_name timeout = codes "ControllerCommandTimeoutError"
class_name interrupt = codes "KeyboardInterrupt"
class_name (exception name) = name

unfoldable pub remote_job_root : Str → ℕ → ℕ → Str
unfolding padded
remote_job_root remote_run_root index attempt =
    remote_run_root
    ++ (codes "/jobs/batch-" ++ (padded 8 index ++ (codes "-attempt-" ++ padded 2 attempt)))

unfoldable pub is_terminal : Str → Bool
is_terminal state = state == codes "terminated" || state == codes "error"

unfoldable pub remote_batch_succeeded : Str → Option ℕ → Receipt → Bool
remote_batch_succeeded state exit_code receipt =
    state == codes "terminated"
    && (exit_code == none || exit_code == some 0)
    && receipt.status == some (codes "succeeded")
