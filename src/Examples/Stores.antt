-- ===== src/Examples/Stores.antt =====
-- A checkpoint file of internal/recovery, saved over an older one.
use agents_coworkers.Prelude.{◌≡◌, refl, sym, ap, true, ◌==◌, none, some, [], ◌∷◌, if◌then◌else◌}
use agents_coworkers.Prelude.Int.{pos}
use agents_coworkers.Recovery.Errors.{ok}
use agents_coworkers.Recovery.Checkpoint.{Checkpoint, waiting_retry, validate}
use agents_coworkers.Recovery.Lease.{Dir}
use agents_coworkers.Recovery.Store.{
  StoreHost, apply_all, load_file, fill_temp, save_valid, save_file,
}
use agents_coworkers.Recovery.Store.Refines.{Refines, Reliable, save_file-Refines}
use agents_coworkers.Examples.Samples.{task, server, start}

abbrev waiting : Checkpoint
waiting = record task { state = waiting_retry; attempts = pos 1 }

abbrev store_host : StoreHost
store_host = record {
  encode = λ c. some "new";
  decode = λ t. if t == "new" then some waiting else some task;
  parts = λ t. "ne" ∷ [];
  temp_path = ok ".checkpoint-1.tmp";
  read_error = none;
  mkdir_error = none;
  chmod_error = none;
  write_error = none;
  sync_error = none;
  close_error = none;
  rename_error = none;
  removes = true;
}

abbrev files : Dir
files p = if p == "cp.json" then some "old" else none

saved_and_loaded :
    load_file store_host "cp.json" (apply_all (save_file store_host "cp.json" waiting).0 files)
    ≡ ok waiting
unfolding load_file save_file save_valid fill_temp validate
saved_and_loaded = refl

reliable : Reliable store_host "cp.json" waiting
reliable = record {
  codec =
      λ text e. let same_text : "new" ≡ text = cc in ap (λ t. store_host.decode t) (sym same_text);
  apart = λ temp e.
      let same_path : ".checkpoint-1.tmp" ≡ temp = cc in ap (λ t. t == "cp.json") (sym same_path);
}

save_file-Refines_example : Refines store_host "cp.json" server waiting files start
unfolding save_valid fill_temp
save_file-Refines_example =
    save_file-Refines store_host "cp.json" server waiting files start reliable refl
      ("old", refl, refl)
