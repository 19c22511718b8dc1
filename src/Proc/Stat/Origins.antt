-- ===== src/Proc/Stat/Origins.antt =====
-- Which fields of a status record its numbers are (`parse_signed` and `parse_unsigned` in src/proc.cc).
use arthur.Base.{ℕ, ◌≡◌, refl, sym, ◌∙◌, Bool-cases, inl, inr, if_true, if_false}
use arthur.Base.{Option, none, some, List, [], ◌∷◌, Bytes}
use mathlib.Core.Path.{subst}
use arthur.Proc.Text.{ℤ}
use arthur.Proc.Text.Integers.{strtol, strtoul}
use arthur.Proc.Stat.Fields.{text_at}
use arthur.Proc.Stat.Values.{
  Numbers, whole, with, parse_signed, parse_unsigned, parse_numbers, starts_negative,
}

-- The field of this index is this number, and nothing else.
abbrev pub IsSigned : List (Option Bytes) → ℕ → ℤ → Type 0
IsSigned array i z = strtol (text_at array i) ≡ some (z, [])

abbrev pub IsUnsigned : List (Option Bytes) → ℕ → ℕ → Type 0
IsUnsigned array i n = strtoul (text_at array i) ≡ some (n, [])

whole_ok {ℓ} : {A : Type ℓ} (o : Option (A × Bytes)) (a : A) → whole o ≡ some a → o ≡ some (a, [])
whole_ok none a h = cc
whole_ok (some (b, [])) a h = cc
whole_ok (some (b, c ∷ s)) a h = cc

-- What holds of the numbers where there are any.
abbrev Holds : (Numbers → Type 0) → Option Numbers → Type 0
Holds P none = Unit {0}
Holds P (some n) = P n

with-Holds {ℓ} :
    {A : Type ℓ} (P : Numbers → Type 0) (o : Option A) (f : A → Option Numbers)
    → ((a : A) → o ≡ some a → Holds P (f a))
    → Holds P (with o f)
with-Holds P none f h = tt
with-Holds P (some a) f h = h a refl

parse_signed-IsSigned :
    (array : List (Option Bytes)) (i : ℕ) (z : ℤ)
    → parse_signed array i ≡ some z
    → IsSigned array i z
unfolding parse_signed
parse_signed-IsSigned array i z h = whole_ok (strtol (text_at array i)) z h

parse_unsigned-IsUnsigned :
    (array : List (Option Bytes)) (i n : ℕ) → parse_unsigned array i ≡ some n → IsUnsigned array i n
unfolding parse_unsigned
parse_unsigned-IsUnsigned array i n h = elim (Bool-cases (starts_negative (text_at array i))) [
  | inl e ↦ absurd (nothing (sym (if_true _ _ e) ∙ h))
  | inr e ↦ whole_ok (strtoul (text_at array i)) n (sym (if_false _ _ e) ∙ h)
]
  where
    nothing : ◌≡◌ {A = Option ℕ} none (some n) → ⊥
    nothing q = cc

-- Each number with its field.
pub record IsNumbers (array : List (Option Bytes)) (n : Numbers) : Type 0 where
  pub pid_is : IsSigned array 0 n.pid
  pub ppid_is : IsSigned array 3 n.ppid
  pub pgid_is : IsSigned array 4 n.pgid
  pub sid_is : IsSigned array 5 n.sid
  pub flags_is : IsUnsigned array 8 n.flags
  pub utime_is : IsUnsigned array 13 n.utime
  pub stime_is : IsUnsigned array 14 n.stime
  pub cutime_is : IsUnsigned array 15 n.cutime
  pub cstime_is : IsUnsigned array 16 n.cstime
  pub nice_is : IsSigned array 18 n.nice
  pub num_threads_is : IsSigned array 19 n.num_threads
  pub vsize_is : IsUnsigned array 22 n.vsize
  pub rss_is : IsSigned array 23 n.rss
  pub pending_is : IsUnsigned array 30 n.pending
  pub blocked_is : IsUnsigned array 31 n.blocked

parse_numbers-Holds : (array : List (Option Bytes)) → Holds (IsNumbers array) (parse_numbers array)
unfolding parse_numbers
parse_numbers-Holds array = signed 0 _ λ pid e_pid. signed 3 _ λ ppid e_ppid.
    signed 4 _ λ pgid e_pgid. signed 5 _ λ sid e_sid. unsigned 8 _ λ flags e_flags.
      unsigned 13 _ λ utime e_utime. unsigned 14 _ λ stime e_stime. unsigned 15 _ λ cutime e_cutime.
        unsigned 16 _ λ cstime e_cstime. signed 18 _ λ nice e_nice.
          signed 19 _ λ num_threads e_num_threads. unsigned 22 _ λ vsize e_vsize.
            signed 23 _ λ rss e_rss. unsigned 30 _ λ pending e_pending.
              unsigned 31 _ λ blocked e_blocked. record {
                pid_is = parse_signed-IsSigned array 0 pid e_pid;
                ppid_is = parse_signed-IsSigned array 3 ppid e_ppid;
                pgid_is = parse_signed-IsSigned array 4 pgid e_pgid;
                sid_is = parse_signed-IsSigned array 5 sid e_sid;
                flags_is = parse_unsigned-IsUnsigned array 8 flags e_flags;
                utime_is = parse_unsigned-IsUnsigned array 13 utime e_utime;
                stime_is = parse_unsigned-IsUnsigned array 14 stime e_stime;
                cutime_is = parse_unsigned-IsUnsigned array 15 cutime e_cutime;
                cstime_is = parse_unsigned-IsUnsigned array 16 cstime e_cstime;
                nice_is = parse_signed-IsSigned array 18 nice e_nice;
                num_threads_is = parse_signed-IsSigned array 19 num_threads e_num_threads;
                vsize_is = parse_unsigned-IsUnsigned array 22 vsize e_vsize;
                rss_is = parse_signed-IsSigned array 23 rss e_rss;
                pending_is = parse_unsigned-IsUnsigned array 30 pending e_pending;
                blocked_is = parse_unsigned-IsUnsigned array 31 blocked e_blocked;
              }
  where
    signed :
        (i : ℕ) (f : ℤ → Option Numbers)
        → ((z : ℤ) → parse_signed array i ≡ some z → Holds (IsNumbers array) (f z))
        → Holds (IsNumbers array) (with (parse_signed array i) f)
    signed i f h = with-Holds (IsNumbers array) (parse_signed array i) f h

    unsigned :
        (i : ℕ) (f : ℕ → Option Numbers)
        → ((n : ℕ) → parse_unsigned array i ≡ some n → Holds (IsNumbers array) (f n))
        → Holds (IsNumbers array) (with (parse_unsigned array i) f)
    unsigned i f h = with-Holds (IsNumbers array) (parse_unsigned array i) f h

pub parse_numbers-IsNumbers :
    (array : List (Option Bytes)) (n : Numbers) → parse_numbers array ≡ some n → IsNumbers array n
parse_numbers-IsNumbers array n h = subst (Holds (IsNumbers array)) h (parse_numbers-Holds array)
