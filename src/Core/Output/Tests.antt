-- ===== src/Core/Output/Tests.antt =====
-- Commits of an output file on a few runs.
use arthur.Base.{ℕ, ◌≡◌, refl, true, false, Option, none, some, List, [], ◌∷◌, All}
use arthur.Base.Results.{ok}
use arthur.Base.Files.{OutFile}
use arthur.Stream.Writer.{open_writer}
use arthur.Stream.Tests.Plain.{plain}
use arthur.Core.Output.Streams.{commit_atomic_lz4}
use arthur.Core.Output.Calls.{
  Entry, Turn, World, next_turn, lstat_final, lstat_temp, exchange, unlink_temp, make_temp,
  sync_directory,
}
use arthur.Core.Output.{
  AtomicOutputState, create_atomic_output, commit_atomic_path, replace_existing, commit_atomic_file,
}
use arthur.Core.Output.Losses.{commit_atomic_file-IsOwn}
use arthur.Core.Output.Safe.{IsOwn}
use arthur.Core.Output.Quiet.{Ends, commit-Ends}

abbrev regular_file : ℕ → Entry
regular_file inode = record { device = 1; inode = inode; regular = true }

abbrev idle : Turn
idle = record { moved = none; refused = none }

abbrev moves : Option Entry → Turn
moves e = record { moved = some e; refused = none }

abbrev ready : List Turn → World
ready turns = record {
  temp = some (regular_file 9);
  final = some (regular_file 7);
  turns = turns;
  removed = [];
}

abbrev replacing : AtomicOutputState
replacing = record { replace_existing = true; initial_device = 1; initial_inode = 7 }

created :
    create_atomic_output (regular_file 9) true (record (ready []) { temp = none })
    ≡ (ok replacing, ready [])
unfolding create_atomic_output lstat_final next_turn make_temp
created = refl

committed : commit_atomic_file true replacing (ready []) ≡ (
  ok tt,
  record (ready []) { temp = none; final = some (regular_file 9); removed = regular_file 7 ∷ [] },
)
unfolding commit_atomic_file commit_atomic_path replace_existing lstat_final next_turn exchange
    lstat_temp unlink_temp sync_directory
committed = refl

-- Another process replaces the final path before the first exchange: its file is put back.
rolled_back :
    (commit_atomic_file true replacing (ready (idle ∷ moves (some (regular_file 5)) ∷ []))).1
    ≡ record (ready []) {
      temp = none;
      final = some (regular_file 5);
      removed = regular_file 9 ∷ [];
    }
unfolding commit_atomic_file commit_atomic_path replace_existing lstat_final next_turn exchange
    lstat_temp unlink_temp sync_directory
rolled_back = refl

-- A third file comes to the final path before the second exchange: it is removed.
foreign_removed :
    (commit_atomic_file true replacing
      (ready (idle ∷ moves (some (regular_file 5)) ∷ idle ∷ moves (some (regular_file 6)) ∷ []))).1
    ≡ record (ready []) {
      temp = none;
      final = some (regular_file 5);
      removed = regular_file 6 ∷ [];
    }
unfolding commit_atomic_file commit_atomic_path replace_existing lstat_final next_turn exchange
    lstat_temp unlink_temp sync_directory
foreign_removed = refl

commit_atomic_file-IsOwn_example :
    All
      (IsOwn (regular_file 9) replacing)
      (commit_atomic_file true replacing
        (ready (idle ∷ moves (some (regular_file 5)) ∷ []))).1.removed
commit_atomic_file-IsOwn_example =
    commit_atomic_file-IsOwn true replacing (ready (idle ∷ moves (some (regular_file 5)) ∷ []))
      (regular_file 9) refl refl refl refl

abbrev stream_file : OutFile
stream_file = record { written = []; room = 1000; failed = false }

commit-Ends_example :
    Ends
      (some (regular_file 9))
      (some (regular_file 7))
      (commit_atomic_file true replacing (ready (idle ∷ [])))
    × Ends
        (some (regular_file 9))
        (some (regular_file 7))
        (commit_atomic_lz4 plain true true true replacing
          (open_writer tt stream_file)
          (ready (idle ∷ []))).0
commit-Ends_example =
    commit-Ends plain true true true replacing (open_writer tt stream_file) (ready (idle ∷ []))
      (refl, tt)
