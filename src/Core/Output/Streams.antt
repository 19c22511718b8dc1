-- ===== src/Core/Output/Streams.antt =====
-- `open_atomic_lz4`, `open_atomic_file` and `commit_atomic_lz4` of src/core.cc: the compressing stream over
-- an atomic output file.
use arthur.Base.{Bool, not, if◌then◌else◌}
use arthur.Base.Results.{Result, Error, ok, err, and_then}
use arthur.Stream.Codec.{Lz4}
use arthur.Stream.Writer.{Writer, sync, close}
use arthur.Core.Output.Calls.{Entry, World, unlink_temp}
use arthur.Core.Output.{AtomicOutputState, create_atomic_output, give_up, commit_atomic_path}

-- `attached` is the success of `OpenFd` on the descriptor, or of `fdopen`.
unfoldable pub open_atomic : Entry → Bool → Bool → World → Result AtomicOutputState × World
open_atomic fresh secure attached w =
    and_then (create_atomic_output fresh secure w)
      λ state w'. if not attached then (err Error.fault, (unlink_temp w').1) else (ok state, w')

-- Behind `Sync` and `Close`, both of which were called.
abbrev pub commit_closed :
    Result (Unit {0}) → Result (Unit {0}) → AtomicOutputState → World → Result (Unit {0}) × World
commit_closed (err e) close_rc state w = give_up Error.fault w
commit_closed (ok _) (err e) state w = give_up Error.fault w
commit_closed (ok _) (ok _) state w = commit_atomic_path state w

module _ {Encoder Decoder : Type 0} (z : Lz4 Encoder Decoder) where
  -- What `fflush`, `fsync` and `fclose` answer are arguments.
  unfoldable pub commit_atomic_lz4 :
      Bool
      → Bool
      → Bool
      → AtomicOutputState
      → Writer Encoder
      → World
      → (Result (Unit {0}) × World) × Writer Encoder
  commit_atomic_lz4 flushed synced closed state out w =
      let (sync_rc, out₁) = sync z flushed synced out in
      let (close_rc, out₂) = close z closed out₁ in (commit_closed sync_rc close_rc state w, out₂)
