-- ===== src/Core/Output/Calls.antt =====
-- The system calls on the two names of an output file. Before each call other processes may have
-- changed the final path, and the call may be refused.
use arthur.Base.{ℕ, Bool, Option, none, some, List, [], ◌∷◌, ◌++◌}
use arthur.Base.Results.{Result, Error, ok, err, and_then}

-- What a name stands for.
pub record Entry : Type 0 where
  pub device : ℕ
  pub inode : ℕ
  pub regular : Bool

-- The final path as others leave it, if they touch it, and the refusal of the call that follows; `einval`
-- stands for ENOSYS and EOPNOTSUPP too.
pub record Turn : Type 0 where
  pub moved : Option (Option Entry)
  pub refused : Option Error

-- The two names, the turns to come, and the files whose names were removed by this process. Other
-- processes leave the temporary name alone.
pub record World : Type 0 where
  pub temp : Option Entry
  pub final : Option Entry
  pub turns : List Turn
  pub removed : List Entry

abbrev pub path_after : Option (Option Entry) → Option Entry → Option Entry
path_after none final = final
path_after (some other) final = other

-- The turn of the others; behind the last, no process interferes.
abbrev pub answer : Option Error → Result (Unit {0})
answer none = ok tt
answer (some e) = err e

abbrev pub turn_of : List Turn → World → Result (Unit {0}) × World
turn_of [] w = (ok tt, w)
turn_of (t ∷ turns) w =
    (answer t.refused, record w { final = path_after t.moved w.final; turns = turns })

unfoldable pub next_turn : World → Result (Unit {0}) × World
next_turn w = turn_of w.turns w

-- The effects of the calls on the names.
abbrev pub swap_names : Option Entry → Option Entry → World → Result (Unit {0}) × World
swap_names none final w = (err Error.fault, w)
swap_names (some t) none w = (err Error.fault, w)
swap_names (some t) (some f) w = (ok tt, record w { temp = some f; final = some t })

abbrev pub move_name : Option Entry → Option Entry → World → Result (Unit {0}) × World
move_name none final w = (err Error.fault, w)
move_name (some t) (some f) w = (err Error.fault, w)
move_name (some t) none w = (ok tt, record w { temp = none; final = some t })

abbrev pub copy_name : Option Entry → Option Entry → World → Result (Unit {0}) × World
copy_name none final w = (err Error.fault, w)
copy_name (some t) (some f) w = (err Error.fault, w)
copy_name (some t) none w = (ok tt, record w { final = some t })

abbrev pub remove_name : Option Entry → World → Result (Unit {0}) × World
remove_name none w = (err Error.fault, w)
remove_name (some t) w = (ok tt, record w { temp = none; removed = w.removed ++ (t ∷ []) })

-- `lstat` gives none where the name does not exist.
unfoldable pub lstat_final : World → Result (Option Entry) × World
lstat_final w = and_then (next_turn w) λ _ w'. (ok w'.final, w')

unfoldable pub lstat_temp : World → Result (Option Entry) × World
lstat_temp w = and_then (next_turn w) λ _ w'. (ok w'.temp, w')

-- `renameat2` with RENAME_EXCHANGE: both names exist, and change places.
unfoldable pub exchange : World → Result (Unit {0}) × World
exchange w = and_then (next_turn w) λ _ w'. swap_names w'.temp w'.final w'

-- `renameat2` with RENAME_NOREPLACE
unfoldable pub rename_noreplace : World → Result (Unit {0}) × World
rename_noreplace w = and_then (next_turn w) λ _ w'. move_name w'.temp w'.final w'

unfoldable pub link : World → Result (Unit {0}) × World
link w = and_then (next_turn w) λ _ w'. copy_name w'.temp w'.final w'

unfoldable pub unlink_temp : World → Result (Unit {0}) × World
unlink_temp w = and_then (next_turn w) λ _ w'. remove_name w'.temp w'

-- `mkstemp`
unfoldable pub make_temp : Entry → World → Result (Unit {0}) × World
make_temp fresh w = and_then (next_turn w) λ _ w'. (ok tt, record w' { temp = some fresh })

unfoldable pub sync_directory : World → Result (Unit {0}) × World
sync_directory w = next_turn w
