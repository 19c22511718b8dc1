-- ===== src/Core/Output.antt =====
-- The atomic output files of src/core.cc: `create_atomic_output`, `commit_atomic_path` and
-- `commit_atomic_file`, beside other processes that change the final path.
pub mod Calls
pub mod Losses
pub mod Safe
pub mod Undisturbed
pub mod Quiet
pub mod Streams
pub mod Tests
use arthur.Base.{
  ℕ, Bool, true, false, not, ◌&&◌, ◌||◌, if◌then◌else◌, ◌==◌, Option, none, some, List, [], ◌∷◌,
  ◌++◌,
}
use arthur.Base.Results.{Result, Error, ok, err, and_then}
use arthur.Core.Output.Calls.{
  Entry, World, lstat_final, lstat_temp, exchange, rename_noreplace, link, unlink_temp, make_temp,
  sync_directory,
}

pub record AtomicOutputState : Type 0 where
  pub replace_existing : Bool
  pub initial_device : ℕ
  pub initial_inode : ℕ

-- What `lstat` gave, at the start.
abbrev pub inspected : Result (Option Entry) → Result AtomicOutputState
inspected (err e) = err e
inspected (ok none) =
    ok (record { replace_existing = false; initial_device = 0; initial_inode = 0 })
inspected (ok (some e)) =
    if not e.regular
    then err Error.einval
    else ok (record { replace_existing = true; initial_device = e.device; initial_inode = e.inode })

abbrev pub is_too_long : Error → Bool
is_too_long Error.enametoolong = true
is_too_long Error.einval = false
is_too_long Error.ebadf = false
is_too_long Error.eio = false
is_too_long Error.ebusy = false
is_too_long Error.eproto = false
is_too_long Error.eoverflow = false
is_too_long Error.efbig = false
is_too_long Error.enospc = false
is_too_long Error.fault = false
is_too_long Error.out_of_fuel = false

-- Behind a `mkstemp` of the final path's name with a suffix: one of a short name, where that was too long.
abbrev pub shortened : Entry → Result (Unit {0}) × World → Result (Unit {0}) × World
shortened fresh (ok u, w) = (ok u, w)
shortened fresh (err e, w) = if is_too_long e then make_temp fresh w else (err e, w)

-- `fchmod`, which must succeed, on the temporary file.
abbrev pub secured :
    Bool → AtomicOutputState → Result (Unit {0}) × World → Result AtomicOutputState × World
secured secure state (err e, w) = (err e, w)
secured secure state (ok _, w) =
    if secure then (ok state, w) else (err Error.fault, (unlink_temp w).1)

-- `create_atomic_output`: `fresh` is the file that `mkstemp` creates.
unfoldable pub create_atomic_output : Entry → Bool → World → Result AtomicOutputState × World
create_atomic_output fresh secure w =
    let (found, w₁) = lstat_final w in
    and_then (inspected found, w₁)
      λ state w₂. secured secure state (shortened fresh (make_temp fresh w₂))

-- The same regular file as at the start.
abbrev pub is_initial : AtomicOutputState → Result (Option Entry) → Bool
is_initial state (err e) = false
is_initial state (ok none) = false
is_initial state (ok (some e)) =
    e.regular && (e.device == state.initial_device && e.inode == state.initial_inode)

-- `cleanup_rc` and the sync of the directory, once the name is committed.
abbrev pub finish : Result (Unit {0}) × World → Result (Unit {0}) × World
finish (err e, w) = (err Error.fault, (sync_directory w).1)
finish (ok _, w) = sync_directory w

-- A commit that failed removes the temporary name.
abbrev pub give_up : Error → World → Result (Unit {0}) × World
give_up e w = (err e, (unlink_temp w).1)

-- The second exchange of names, after which the temporary name goes, unless it failed.
abbrev pub roll_back : Error → Result (Unit {0}) × World → Result (Unit {0}) × World
roll_back e (err f, w) = (err f, w)
roll_back e (ok _, w) = give_up e w

abbrev pub inspect_error : Result (Option Entry) → Error
inspect_error (err e) = e
inspect_error (ok none) = Error.fault
inspect_error (ok (some e)) = Error.ebusy

-- `displaced`, the file that the first exchange took from the final path.
abbrev pub displaced : AtomicOutputState → Result (Option Entry) × World → Result (Unit {0}) × World
displaced state (found, w) =
    if not (is_initial state found)
    then roll_back (inspect_error found) (exchange w)
    else finish (unlink_temp w)

abbrev pub exchanged : AtomicOutputState → Result (Unit {0}) × World → Result (Unit {0}) × World
exchanged state (err e, w) = give_up e w
exchanged state (ok _, w) = displaced state (lstat_temp w)

unfoldable pub replace_existing : AtomicOutputState → World → Result (Unit {0}) × World
replace_existing state w =
    let (found, w₁) = lstat_final w in
    if not (is_initial state found) then give_up Error.ebusy w₁ else exchanged state (exchange w₁)

-- The hard link, where the kernel cannot rename without replacing.
abbrev pub linked : Result (Unit {0}) × World → Result (Unit {0}) × World
linked (err e, w) = give_up e w
linked (ok _, w) = finish (unlink_temp w)

abbrev pub is_unsupported : Error → Bool
is_unsupported Error.einval = true
is_unsupported Error.ebadf = false
is_unsupported Error.eio = false
is_unsupported Error.ebusy = false
is_unsupported Error.eproto = false
is_unsupported Error.eoverflow = false
is_unsupported Error.efbig = false
is_unsupported Error.enospc = false
is_unsupported Error.enametoolong = false
is_unsupported Error.fault = false
is_unsupported Error.out_of_fuel = false

abbrev pub renamed : Result (Unit {0}) × World → Result (Unit {0}) × World
renamed (ok _, w) = sync_directory w
renamed (err e, w) = if is_unsupported e then linked (link w) else give_up e w

unfoldable pub commit_atomic_path : AtomicOutputState → World → Result (Unit {0}) × World
commit_atomic_path state w =
    if state.replace_existing then replace_existing state w else renamed (rename_noreplace w)

-- `commit_atomic_file`: `flushed` says that `fflush`, `fsync` and `fclose` succeeded.
unfoldable pub commit_atomic_file : Bool → AtomicOutputState → World → Result (Unit {0}) × World
commit_atomic_file flushed state w =
    if not flushed then give_up Error.fault w else commit_atomic_path state w
