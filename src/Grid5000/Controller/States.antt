-- ===== src/Grid5000/Controller/States.antt =====
-- The state in which the controller leaves a batch.
use osm_polygon_wikidata_onl.Prelude.{
  ◌≡◌, refl, sym, Bool, true, List, [], ◌∷◌, ◌++◌, Option, none, some, Str, ℕ,
}
use mathlib.Core.Path.{subst}
use osm_polygon_wikidata_onl.Grid5000.Controller.{
  BatchState, planned, submitted, running, failed, ready_to_publish, published, cancelled,
  other_state, Batch, timeout, interrupt, exception, Reply, replied, raised, World, Receipt,
  Settings, Replies, write_ledger, save, try, ◌>>=◌, ◌>>◌, tree_removed, Event,
}
use osm_polygon_wikidata_onl.Grid5000.Controller.Process.{
  submit_batch, cleanup_remote_job, cleanup_at, publish_ready, settle_batch, retrieve_batch, poll,
  reconcile_batch, publication_message, message_of_batch, publish_batch, publish_if_ready,
  process_state, process_batch, has_job, receipt_of,
}
use osm_polygon_wikidata_onl.Grid5000.Controller.Triples.{
  continue-Ensures, Ensures, Keeping, then-Keeping, traced-Keeping, throw-Keeping, return-Keeping,
  Giving, last-Giving, throw-Giving, choice-Giving, choice-Keeping,
}

-- A batch that can be published.
abbrev Ready : World → Type 0
Ready w = w.batch.state ≡ ready_to_publish

-- A batch that has been published under the commit that the publication replied, after the baseline and
-- the published files had been verified.
pub record IsPublished (replies : Replies) (w : World) : Type 0 where
  pub state_published : w.batch.state ≡ published
  pub commit : Str
  pub commit_recorded : w.batch.hf_commit ≡ some commit
  pub commit_replied : replies.publication ≡ replied commit
  pub files_verified : replies.verification ≡ replied tt
  pub baseline_verified : replies.baseline_kept ≡ replied tt

-- What a call replied, with its exception taken apart.
data Known {A : Type 0} (r : Reply A) : Type 0 where
  gave : (a : A) → r ≡ replied a → Known r
  late : r ≡ raised timeout → Known r
  stopped : r ≡ raised interrupt → Known r
  broke : (name : Str) → r ≡ raised (exception name) → Known r

known : {A : Type 0} (r : Reply A) → Known r
known (replied a) = gave a refl
known (raised timeout) = late refl
known (raised interrupt) = stopped refl
known (raised (exception name)) = broke name refl

module _ (settings : Settings) (replies : Replies) where
  save-Giving :
      (P : World → Type 0) (f : Batch → Batch)
      → ((w : World) → P (record { batch = f w.batch; saved = f w.batch; events = w.events }))
      → Giving P (save f)
  unfolding save write_ledger ◌>>=◌
  save-Giving P f h = record { given = λ w. h w }

  settle_batch-Giving :
      (state : Str) (exit_code : Option ℕ) (receipt : Option Receipt)
      → Giving Ready (settle_batch settings replies state exit_code receipt)
  unfolding settle_batch
  settle_batch-Giving state exit_code none = last-Giving Ready _ (λ _. throw-Giving Ready _)
  settle_batch-Giving state exit_code (some receipt) =
      choice-Giving Ready _ (last-Giving Ready _ (λ _. save-Giving Ready _ (λ w. refl)))
        (last-Giving Ready _ (λ _. throw-Giving Ready _))

  retrieve_batch-Giving :
      (state : Str) (exit_code : Option ℕ)
      → Giving Ready (retrieve_batch settings replies state exit_code)
  unfolding retrieve_batch
  retrieve_batch-Giving state exit_code = last-Giving Ready _ (λ _. record {
    given = λ w.
        (settle_batch-Giving state exit_code (receipt_of settings w.batch replies.receipt)).given w;
  })

  poll-Giving :
      (statuses : List (Reply (Str × Option ℕ))) → Giving Ready (poll settings replies statuses)
  unfolding poll
  poll-Giving [] = throw-Giving Ready _
  poll-Giving (raised fault ∷ statuses) = throw-Giving Ready _
  poll-Giving (replied (state, exit_code) ∷ statuses) =
      choice-Giving Ready _ (retrieve_batch-Giving state exit_code) (poll-Giving statuses)

  reconcile_batch-Giving : Giving Ready (reconcile_batch settings replies)
  unfolding reconcile_batch
  reconcile_batch-Giving = record {
    given = λ w.
        (choice-Giving Ready (has_job w.batch.oar_job_id) (poll-Giving replies.statuses)
            (throw-Giving Ready _)).given
          w;
  }

  marked-Keeping :
      Keeping (IsPublished replies) (save (λ batch. record batch { remote_cleaned = true }))
  unfolding save write_ledger ◌>>=◌
  marked-Keeping = record {
    kept = λ w i. record {
      state_published = i.state_published;
      commit = i.commit;
      commit_recorded = i.commit_recorded;
      commit_replied = i.commit_replied;
      files_verified = i.files_verified;
      baseline_verified = i.baseline_verified;
    };
  }

  traced-IsPublished :
      (event : Event) (w : World)
      → IsPublished replies w
      → IsPublished replies (record w { events = w.events ++ (event ∷ []) })
  traced-IsPublished event w i = record {
    state_published = i.state_published;
    commit = i.commit;
    commit_recorded = i.commit_recorded;
    commit_replied = i.commit_replied;
    files_verified = i.files_verified;
    baseline_verified = i.baseline_verified;
  }

  -- Cleaning up leaves the publication as it is.
  cleanup_at-IsPublished :
      (cleaned : Bool) (root : Option Str)
      → Keeping (IsPublished replies) (cleanup_at settings replies cleaned root)
  unfolding cleanup_at
  cleanup_at-IsPublished cleaned none = throw-Keeping (IsPublished replies) _
  cleanup_at-IsPublished cleaned (some root) =
      choice-Keeping (IsPublished replies) _ (throw-Keeping (IsPublished replies) _) (
        choice-Keeping (IsPublished replies) cleaned (return-Keeping (IsPublished replies) tt) (
          then-Keeping (IsPublished replies)
            (traced-Keeping (IsPublished replies) tree_removed _ (traced-IsPublished tree_removed))
            (λ _. marked-Keeping)))

  given_of :
      (x : Reply (Unit {0}) × World)
      → Ensures (λ _ v. IsPublished replies v) (λ _ v. IsPublished replies v) x
      → Ensures (λ _ v. IsPublished replies v) (λ _ _. Unit {0}) x
  given_of (replied a, w) i = i
  given_of (raised e, w) i = tt

  cleaned_up :
      (w : World)
      → IsPublished replies w
      → Ensures
          (λ _ v. IsPublished replies v)
          (λ _ _. Unit {0})
          (cleanup_remote_job settings replies w)
  unfolding cleanup_remote_job
  cleaned_up w i =
      given_of _ ((cleanup_at-IsPublished w.batch.remote_cleaned w.batch.remote_job_root).kept w i)

  publish_batch-Giving : Giving (IsPublished replies) (publish_batch settings replies)
  unfolding publish_batch message_of_batch try ◌>>=◌ save write_ledger
  publish_batch-Giving = record {
    given = λ w. elim (known replies.baseline_kept) [
      | late e ↦ rw e tt
      | stopped e ↦ rw e tt
      | broke name e ↦ rw e tt
      | gave _ kept ↦ elim (known (publication_message w.batch.stems)) [
        | late e ↦ rw kept (rw e tt)
        | stopped e ↦ rw kept (rw e tt)
        | broke name e ↦ rw kept (rw e tt)
        | gave _ said ↦ elim (known replies.publication) [
          | late e ↦ rw kept (rw said (rw e tt))
          | stopped e ↦ rw kept (rw said (rw e tt))
          | broke name e ↦ rw kept (rw said (rw e tt))
          | gave commit given ↦ elim (known replies.verification) [
            | late e ↦ rw kept (rw said (rw given (rw e tt)))
            | stopped e ↦ rw kept (rw said (rw given (rw e tt)))
            | broke name e ↦ rw kept (rw said (rw given (rw e tt)))
            | gave _ verified ↦ rw kept (
                rw said (
                  rw given (
                    rw verified (
                      cleaned_up _ (record {
                        state_published = refl;
                        commit = commit;
                        commit_recorded = refl;
                        commit_replied = given;
                        files_verified = verified;
                        baseline_verified = kept;
                      })))))
          ]
        ]
      ]
    ];
  }

  -- The last step of a batch that has been reconciled.
  publish_if_ready-Giving :
      (w : World)
      → Ready w
      → Ensures
          (λ _ v. IsPublished replies v)
          (λ _ _. Unit {0})
          (publish_if_ready settings replies w)
  unfolding publish_if_ready publish_ready
  publish_if_ready-Giving w ready =
      subst
        (λ state.
          Ensures (λ _ v. IsPublished replies v) (λ _ _. Unit {0})
            (publish_ready state settings replies w))
        (sym ready) (publish_batch-Giving.given w)

  reconciled-Giving :
      Giving
        (IsPublished replies)
        (reconcile_batch settings replies >> publish_if_ready settings replies)
  unfolding ◌>>=◌
  reconciled-Giving = record {
    given = λ w.
        continue-Ensures (λ _ v. Ready v) (λ _ v. IsPublished replies v) (λ _ _. Unit {0})
          (reconcile_batch settings replies w) _ (reconcile_batch-Giving.given w)
          (λ _ v ready. publish_if_ready-Giving v ready);
  }

  submitted-Giving : Giving (IsPublished replies) (
      submit_batch settings replies
      >> reconcile_batch settings replies
      >> publish_if_ready settings replies)
  unfolding ◌>>=◌
  submitted-Giving = record {
    given = λ w.
        continue-Ensures (λ _ v. Ready v) (λ _ v. IsPublished replies v) (λ _ _. Unit {0})
          ((submit_batch settings replies >> reconcile_batch settings replies) w) _
          ((last-Giving Ready (submit_batch settings replies) (λ _. reconcile_batch-Giving)).given
            w)
          (λ _ v ready. publish_if_ready-Giving v ready);
  }

  -- what it means that a batch in some state has been processed
  unfoldable pub Processed : BatchState → World → World → Type 0
  Processed published before after = after ≡ before
  Processed _ before after = IsPublished replies after

  pub process_state-Giving :
      (state : BatchState) (w : World)
      → Ensures
          (λ _ v. Processed state w v)
          (λ _ _. Unit {0})
          (process_state state settings replies w)
  unfolding process_state Processed
  process_state-Giving published w = refl
  process_state-Giving ready_to_publish w = publish_batch-Giving.given w
  process_state-Giving submitted w = reconciled-Giving.given w
  process_state-Giving running w = reconciled-Giving.given w
  process_state-Giving planned w = submitted-Giving.given w
  process_state-Giving failed w = submitted-Giving.given w
  process_state-Giving cancelled w = tt
  process_state-Giving (other_state name) w = tt

-- When the controller is done with a batch without an exception, the batch was published before and
-- nothing has changed, or it has been published now: its state says so, its commit is the one that the
-- publication replied, and the protected files and the published files were verified.
pub process_batch-IsPublished :
    (settings : Settings) (replies : Replies) (w v : World)
    → process_batch settings replies w ≡ (replied tt, v)
    → Processed settings replies w.batch.state w v
unfolding process_batch
process_batch-IsPublished settings replies w v h =
    subst (λ x. Ensures (λ _ u. Processed settings replies w.batch.state w u) (λ _ _. Unit {0}) x) h
      (process_state-Giving settings replies w.batch.state w)
