-- ===== src/Proc/Stat/Values.antt =====
-- The numbers of a status record, `parse_signed` and `parse_unsigned` (src/proc.cc).
use arthur.Base.{ℕ, ◌-◌, ◌^◌, Bool, false, not, ◌&&◌, ◌==◌, if◌then◌else◌}
use arthur.Base.{Option, none, some, List, [], ◌∷◌, Bytes}
use arthur.Proc.Text.{ℤ, pos, negsuc}
use arthur.Proc.Text.Integers.{strtol, strtoul, below}
use arthur.Proc.Stat.Fields.{text_at}

-- A number that is the whole text.
abbrev pub whole {ℓ} : {A : Type ℓ} → Option (A × Bytes) → Option A
whole none = none
whole (some (a, [])) = some a
whole (some (a, c ∷ s)) = none

unfoldable pub parse_signed : List (Option Bytes) → ℕ → Option ℤ
parse_signed array i = whole (strtol (text_at array i))

abbrev pub starts_negative : Bytes → Bool
starts_negative [] = false
starts_negative (c ∷ s) = c == b'-'

unfoldable pub parse_unsigned : List (Option Bytes) → ℕ → Option ℕ
parse_unsigned array i =
    let text = text_at array i in if starts_negative text then none else whole (strtoul text)

pub record Numbers : Type 0 where
  pub pid : ℤ
  pub ppid : ℤ
  pub pgid : ℤ
  pub sid : ℤ
  pub flags : ℕ
  pub utime : ℕ
  pub stime : ℕ
  pub cutime : ℕ
  pub cstime : ℕ
  pub nice : ℤ
  pub num_threads : ℤ
  pub vsize : ℕ
  pub rss : ℤ
  pub pending : ℕ
  pub blocked : ℕ

-- Goes on with a number that was read.
abbrev pub with {ℓ} : {A : Type ℓ} → Option A → (A → Option Numbers) → Option Numbers
with none f = none
with (some a) f = f a

unfoldable pub parse_numbers : List (Option Bytes) → Option Numbers
parse_numbers array = with (parse_signed array 0) λ pid. with (parse_signed array 3) λ ppid.
    with (parse_signed array 4) λ pgid. with (parse_signed array 5) λ sid.
      with (parse_unsigned array 8) λ flags. with (parse_unsigned array 13) λ utime.
        with (parse_unsigned array 14) λ stime. with (parse_unsigned array 15) λ cutime.
          with (parse_unsigned array 16) λ cstime. with (parse_signed array 18) λ nice.
            with (parse_signed array 19) λ num_threads. with (parse_unsigned array 22) λ vsize.
              with (parse_signed array 23) λ rss. with (parse_unsigned array 30) λ pending.
                with (parse_unsigned array 31) λ blocked. some (record {
                  pid = pid;
                  ppid = ppid;
                  pgid = pgid;
                  sid = sid;
                  flags = flags;
                  utime = utime;
                  stime = stime;
                  cutime = cutime;
                  cstime = cstime;
                  nice = nice;
                  num_threads = num_threads;
                  vsize = vsize;
                  rss = rss;
                  pending = pending;
                  blocked = blocked;
                })

abbrev pub int_max : ℕ
int_max = 2 ^ 31 - 1

-- `0 < z && z <= INT_MAX`, from the two guards that refuse
abbrev pub is_positive_int : ℤ → Bool
is_positive_int z = below (pos 0) z && not (below (pos int_max) z)

-- `0 <= z && z <= INT_MAX`
abbrev pub is_natural_int : ℤ → Bool
is_natural_int z = not (below z (pos 0)) && not (below (pos int_max) z)

-- What `stat numeric field outside supported range` refuses is the negation.
unfoldable pub in_ranges : Numbers → Bool
in_ranges n =
    is_positive_int n.pid
    && (is_natural_int n.ppid
        && (is_natural_int n.pgid
            && (is_natural_int n.sid
                && ((not (below n.nice (negsuc 19)) && not (below (pos 19) n.nice))
                    && (is_positive_int n.num_threads && not (below n.rss (pos 0)))))))
