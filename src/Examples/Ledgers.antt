-- ===== src/Examples/Ledgers.antt =====
-- The ledger of a run of one batch: made, taken up again, and taken up by a controller of another commit.
use osm_polygon_wikidata_onl.Prelude.{
  ◌≡◌, refl, str_eq, [], ◌∷◌, none, some, codes, get, ok, err, runtime_error,
}
use osm_polygon_wikidata_onl.Json.{text, fields, entries}
use osm_polygon_wikidata_onl.Grid5000.Controller.Ledger.{Ledger, Options}
use osm_polygon_wikidata_onl.Grid5000.Controller.Ledger.Initialize.{
  Surroundings, StoredLedger, initialize, load_existing_ledger, written,
}
use osm_polygon_wikidata_onl.Grid5000.Controller.Ledger.Created.{initialize-again}
use osm_polygon_wikidata_onl.Grid5000.Controller.Ledger.Loaded.{IsTaken, initialize_lem}

abbrev options : Options
options = record {
  run_id = none;
  repo_id = codes "o/d";
  source_commit = codes "c0";
  site = codes "lyon";
  queue = codes "besteffort";
  gpu_model = codes "A100";
  limits = record {
    max_stems = 2;
    max_input_bytes = 10;
    batch_size = 4;
    inference_batch_size = 8;
    walltime = codes "1:00";
  };
}

abbrev around : Surroundings
around = record {
  new_run_id = codes "run-1";
  created = codes "t0";
  updated = codes "t1";
  written = codes "t2";
  planned = ok (record { index = 0; stems = codes "a" ∷ []; input_bytes = 4 } ∷ []);
  baselines = ok (codes "h1", codes "h2");
}

abbrev later : Surroundings
later = record around { new_run_id = codes "run-2"; written = codes "t3" }

unfoldable made :
    (ledger : Ledger) × (file : StoredLedger) × (initialize options around none ≡ (ok ledger, file))
unfolding initialize
made = (_, _, refl)

initialize-again_example : initialize options later made.1 ≡ (ok made.0, made.1)
initialize-again_example = initialize-again options around later made.0 made.1 made.2

-- a controller of another commit
abbrev recommitted : Options
recommitted = record options { source_commit = codes "c1" }

taken :
    (after : Ledger) × (file : StoredLedger) × (initialize recommitted later (written made.0)
      ≡ (ok after, file))
unfolding initialize made
taken = (_, _, refl)

initialize_lem_example : IsTaken recommitted (entries (fields made.0)) taken.0 taken.1
initialize_lem_example = initialize_lem recommitted later (fields made.0) taken.0 taken.1 taken.2

-- a controller of another commit and for another repository
abbrev foreign : Options
foreign = record recommitted { repo_id = codes "o/e" }

-- It is refused, but the source commit in the file is its own.
refused_but_rewritten :
    (after : Ledger) × (initialize foreign later (written made.0)
      ≡ (err runtime_error, written after))
    × (get (codes "source_commit") after ≡ some (text (codes "c1")))
unfolding initialize load_existing_ledger made
refused_but_rewritten =
    ((load_existing_ledger foreign later (entries (fields made.0))).1, refl, refl)
