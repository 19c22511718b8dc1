-- ===== src/Proc/Stat/Limits.antt =====
-- The ranges that `ProcStat::Parse` (src/proc.cc) admits its numbers in.
use arthur.Base.{and_split, ℕ, ◌≡◌, ◌≤◌, refl, arith, true, not, ◌&&◌}
use arthur.Proc.Text.{ℤ, pos, negsuc}
use arthur.Proc.Text.Integers.{below}
use arthur.Proc.Stat.Values.{Numbers, is_positive_int, is_natural_int, int_max, in_ranges}

-- A `long` from `low` to `high`, which are natural numbers.
abbrev pub IsBetween : ℕ → ℕ → ℤ → Type 0
IsBetween low high (pos n) = (low ≤ n) × (n ≤ high)
IsBetween low high (negsuc n) = 1 ≤ 0

-- A nice value: from -20 to 19.
abbrev pub IsNice : ℤ → Type 0
IsNice (pos n) = n ≤ 19
IsNice (negsuc n) = n ≤ 19

positive_int-IsBetween : (z : ℤ) → is_positive_int z ≡ true → IsBetween 1 int_max z
unfolding below
positive_int-IsBetween (pos n) h = ground arith
positive_int-IsBetween (negsuc n) h = cc

natural_int-IsBetween : (z : ℤ) → is_natural_int z ≡ true → IsBetween 0 int_max z
unfolding below
natural_int-IsBetween (pos n) h = ground arith
natural_int-IsBetween (negsuc n) h = cc

bounds-IsNice : (z : ℤ) → (not (below z (negsuc 19)) && not (below (pos 19) z)) ≡ true → IsNice z
unfolding below
bounds-IsNice (pos n) h = ground arith
bounds-IsNice (negsuc n) h = ground arith

not_negative : (z : ℤ) → not (below z (pos 0)) ≡ true → (m : ℕ) × (z ≡ pos m)
unfolding below
not_negative (pos m) h = (m, refl)
not_negative (negsuc m) h = cc

-- The ranges of the numbers, and the pages as a natural number.
pub record IsInRanges (n : Numbers) : Type 0 where
  pub pid_range : IsBetween 1 int_max n.pid
  pub ppid_range : IsBetween 0 int_max n.ppid
  pub pgid_range : IsBetween 0 int_max n.pgid
  pub sid_range : IsBetween 0 int_max n.sid
  pub nice_range : IsNice n.nice
  pub threads_range : IsBetween 1 int_max n.num_threads
  pub pages : ℕ
  pub is_pages : n.rss ≡ pos pages

pub in_ranges-IsInRanges : (n : Numbers) → in_ranges n ≡ true → IsInRanges n
unfolding in_ranges
in_ranges-IsInRanges n h =
    let (pid, h₁) = and_split h in
    let (ppid, h₂) = and_split h₁ in
    let (pgid, h₃) = and_split h₂ in
    let (sid, h₄) = and_split h₃ in
    let (nice, h₅) = and_split h₄ in
    let (threads, rss) = and_split h₅ in
    record {
      pid_range = positive_int-IsBetween n.pid pid;
      ppid_range = natural_int-IsBetween n.ppid ppid;
      pgid_range = natural_int-IsBetween n.pgid pgid;
      sid_range = natural_int-IsBetween n.sid sid;
      nice_range = bounds-IsNice n.nice nice;
      threads_range = positive_int-IsBetween n.num_threads threads;
      pages = (not_negative n.rss rss).0;
      is_pages = (not_negative n.rss rss).1;
    }
