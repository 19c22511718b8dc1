-- ===== src/Core/Memory/Image.antt =====
-- What the loop of `pread` puts into the buffer.
use arthur.Base.{
  ℕ, zero, suc, ◌+◌, ◌-◌, ◌≡◌, ◌≤◌, ◌⊎◌, inl, inr, refl, sym, ap, ◌∙◌, arith, Bool, true, false,
  if◌then◌else◌, min, ◌==◌,
}
use arthur.Base.{List, [], ◌∷◌, ◌++◌, Bytes, length, length-append, All}
use arthur.Base.Words.{IsByte}
use mathlib.Core.Path.{subst}
use arthur.Core.Memory.Source.{
  Pread, stretch, signalled, refused, bytes_at, zeros, Filled, zero_filled, with_bytes, fill_buffer,
}

-- Whether the kernel refuses a `pread` to come.
abbrev pub Refuses : List Pread → Type 0
Refuses [] = ⊥
Refuses (stretch n ∷ answers) = Refuses answers
Refuses (signalled ∷ answers) = Refuses answers
Refuses (refused ∷ answers) = Unit {0}

-- The bytes of the memory from an address on. A byte may be zero instead, if `Z` holds.
abbrev pub IsImage : Type 0 → (ℕ → ℕ) → ℕ → Bytes → Type 0
IsImage Z memory addr [] = Unit {0}
IsImage Z memory addr (b ∷ s) = ((b ≡ memory addr) ⊎ ((b ≡ 0) × Z)) × IsImage Z memory (suc addr) s

length-bytes_at : (memory : ℕ → ℕ) (addr n : ℕ) → length (bytes_at memory addr n) ≡ n
unfolding bytes_at
length-bytes_at memory addr zero = refl
length-bytes_at memory addr (suc n) = ap suc (length-bytes_at memory (suc addr) n)

length-zeros : (n : ℕ) → length (zeros n) ≡ n
unfolding zeros
length-zeros zero = refl
length-zeros (suc n) = ap suc (length-zeros n)

module _ (Z : Type 0) (memory : ℕ → ℕ) where
  bytes_at-IsImage : (addr n : ℕ) → IsImage Z memory addr (bytes_at memory addr n)
  unfolding bytes_at
  bytes_at-IsImage addr zero = tt
  bytes_at-IsImage addr (suc n) = (inl refl, bytes_at-IsImage (suc addr) n)

  zeros-IsImage : (addr n : ℕ) → Z → IsImage Z memory addr (zeros n)
  unfolding zeros
  zeros-IsImage addr zero h = tt
  zeros-IsImage addr (suc n) h = (inr (refl, h), zeros-IsImage (suc addr) n h)

  pub IsImage-append :
      (addr : ℕ) (s t : Bytes)
      → IsImage Z memory addr s
      → IsImage Z memory (addr + length s) t
      → IsImage Z memory addr (s ++ t)
  IsImage-append addr [] t h k = subst (λ a. IsImage Z memory a t) (omega arith) k
  IsImage-append addr (b ∷ s) t (hb, hs) k =
      (hb, IsImage-append (suc addr) s t hs (subst (λ a. IsImage Z memory a t) (omega arith) k))

  pub IsImage-bytes :
      (addr : ℕ) (s : Bytes)
      → ((a : ℕ) → IsByte (memory a))
      → IsImage Z memory addr s
      → All IsByte s
  IsImage-bytes addr [] m h = tt
  IsImage-bytes addr (b ∷ s) m (inl e, h) =
      (subst IsByte (sym e) (m addr), IsImage-bytes (suc addr) s m h)
  IsImage-bytes addr (b ∷ s) m (inr (e, z), h) =
      (subst IsByte (sym e) (omega arith), IsImage-bytes (suc addr) s m h)

  -- A buffer that was filled without an end of the file.
  pub record IsFilled (addr left : ℕ) (b : Filled) : Type 0 where
    pub whole : length b.data_read ≡ left
    pub image : b.saw_eof ≡ false → IsImage Z memory addr b.data_read
    pub refusals : Refuses b.answers → Z

  zero_filled-IsFilled :
      (addr left : ℕ) (saw_eof : Bool) (answers : List Pread)
      → (saw_eof ≡ false → Z)
      → (Refuses answers → Z)
      → IsFilled addr left (zero_filled left saw_eof answers)
  zero_filled-IsFilled addr left saw_eof answers h k = record {
    whole = length-zeros left;
    image = λ e. zeros-IsImage addr left (h e);
    refusals = k;
  }

  with_bytes-IsFilled :
      (addr left n : ℕ) (rest : Filled)
      → n ≤ left
      → IsFilled (addr + n) (left - n) rest
      → IsFilled addr left (with_bytes (bytes_at memory addr n) n rest)
  with_bytes-IsFilled addr left n rest h v = record {
    whole =
        length-append (bytes_at memory addr n) rest.data_read
        ∙ omega (arith, length-bytes_at memory addr n, v.whole, h);
    image = λ e.
        IsImage-append addr (bytes_at memory addr n) rest.data_read (bytes_at-IsImage addr n) (
          subst (λ m. IsImage Z memory (addr + m) rest.data_read)
            (sym (length-bytes_at memory addr n)) (v.image e));
    refusals = v.refusals;
  }

  if-IsFilled :
      (addr left : ℕ) (t : Bool) (p q : Filled)
      → IsFilled addr left p
      → IsFilled addr left q
      → IsFilled addr left (if t then p else q)
  if-IsFilled addr left true p q h k = h
  if-IsFilled addr left false p q h k = k

  pub fill_buffer-IsFilled :
      (answers : List Pread) (addr left : ℕ)
      → (Refuses answers → Z)
      → IsFilled addr left (fill_buffer memory answers addr left)
  unfolding fill_buffer zeros
  fill_buffer-IsFilled [] addr zero h = record { whole = refl; image = λ e. tt; refusals = h }
  fill_buffer-IsFilled (a ∷ answers) addr zero h = record {
    whole = refl;
    image = λ e. tt;
    refusals = h;
  }
  fill_buffer-IsFilled [] addr (suc left) h =
      zero_filled-IsFilled addr (suc left) true [] (λ e. cc) h
  fill_buffer-IsFilled (stretch n ∷ answers) addr (suc left) h =
      if-IsFilled addr (suc left) (min n (suc left) == 0) _ _
        (zero_filled-IsFilled addr (suc left) true answers (λ e. cc) h)
        (with_bytes-IsFilled addr (suc left) (min n (suc left)) _ (omega arith)
          (fill_buffer-IsFilled answers (addr + min n (suc left)) (suc left - min n (suc left)) h))
  fill_buffer-IsFilled (signalled ∷ answers) addr (suc left) h =
      fill_buffer-IsFilled answers addr (suc left) h
  fill_buffer-IsFilled (refused ∷ answers) addr (suc left) h =
      zero_filled-IsFilled addr (suc left) false answers (λ e. h tt) (λ r. h tt)
