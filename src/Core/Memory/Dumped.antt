-- ===== src/Core/Memory/Dumped.antt =====
-- What `WriteLoads` puts into the stream where it succeeds.
use arthur.Base.{
  ℕ, zero, suc, ◌+◌, ◌-◌, ◌^◌, ◌≡◌, ◌≤◌, ◌<◌, refl, sym, ap, ◌∙◌, arith, true, false, ltb, leb,
  leb→le, min, ◌⊎◌, inl, inr, Bool-cases,
}
use arthur.Base.{List, [], ◌∷◌, ◌++◌, Bytes, length, append-nil, append_assoc, length-append}
use mathlib.Core.Path.{subst}
use arthur.Base.Words.{IsByte, add_size}
use arthur.Base.Results.{After, and_then-After, if-After, After-map}
use arthur.Base.Results.{Result, ok, err}
use arthur.Stream.Block
use arthur.Stream.Codec.{Lz4}
use arthur.Stream.Writer.{Writer}
use arthur.Stream.Writer.Calls.{IsWriting}
use arthur.Core.Loads.{ProgramHeader, ssize_max}
use arthur.Core.Memory.Source.{Filled, fill_buffer}
use arthur.Core.Memory.{
  buffer_size, Dump, on_out, write_buffer, dump_filled, dump_buffer, dump_range,
}
use arthur.Core.Memory.Image.{
  Refuses, IsImage, IsImage-append, IsImage-bytes, IsFilled, fill_buffer-IsFilled,
}
use arthur.Core.Memory.Blocks.{Written, Written-refl, Written-trans, write_buffer_ok}

module _ {Encoder Decoder : Type 0} (z : Lz4 Encoder Decoder) (Z : Type 0) (memory : ℕ → ℕ)
    (bytes : (a : ℕ) → IsByte (memory a)) where
  -- Between two steps: nothing is buffered.
  pub record IsDumping (st : Dump Encoder) : Type 0 where
    pub writing : IsWriting st.out
    pub drained : st.out.block ≡ Block.empty
    pub refusals : Refuses st.answers → Z

  -- From one step to another, the blocks for `s`.
  pub record Step (s : Bytes) (phdrs : List ProgramHeader) (st st' : Dump Encoder) : Type 0 where
    pub written : Written z s st.out st'.out
    pub headers : st'.phdrs ≡ st.phdrs ++ phdrs
    pub refusals : Refuses st'.answers → Z

  pub Step-IsDumping :
      (s : Bytes) (phdrs : List ProgramHeader) (st st' : Dump Encoder)
      → Step s phdrs st st'
      → IsDumping st'
  Step-IsDumping s phdrs st st' v = record {
    writing = v.written.writing;
    drained = v.written.drained;
    refusals = v.refusals;
  }

  pub Step-trans :
      (s t : Bytes) (ps qs : List ProgramHeader) (st st₁ st₂ : Dump Encoder)
      → Step s ps st st₁
      → Step t qs st₁ st₂
      → Step (s ++ t) (ps ++ qs) st st₂
  Step-trans s t ps qs st st₁ st₂ a b = record {
    written = Written-trans z s t st.out st₁.out st₂.out a.written b.written;
    headers = b.headers ∙ ap (λ x. x ++ qs) a.headers ∙ append_assoc st.phdrs ps qs;
    refusals = b.refusals;
  }

  on_out-After :
      {A : Type 0} (Q : A → Dump Encoder → Type 0) (p : Result A × Writer Encoder)
      (st : Dump Encoder)
      → ((a : A) (w : Writer Encoder) → p ≡ (ok a, w) → Q a (record st { out = w }))
      → After Q (on_out p st)
  on_out-After Q (ok a, w) st h = h a w refl
  on_out-After Q (err e, w) st h = tt

  -- `k` bytes of the memory from an address on were added, and counted.
  abbrev pub Added : ℕ → ℕ → ℕ → Dump Encoder → ℕ → Dump Encoder → Type 0
  Added addr k size st n st' =
      (s : Bytes) × IsImage Z memory addr s × (length s ≡ k) × (n ≡ size + k) × Step s [] st st'

  dump_filled-After :
      (addr req size : ℕ) (b : Filled) (st : Dump Encoder)
      → IsDumping st
      → IsFilled Z memory addr req b
      → size + req < 2 ^ 64
      → After (λ n st'. Added addr req size st n st') (dump_filled z memory b size st)
  dump_filled-After addr req size b st v f small =
      if-After _ b.saw_eof _ _ (λ _. tt)
        λ whole.
          on_out-After _ (write_buffer z (length b.data_read) b.data_read size st.out) read
            λ n w' e.
              let (written, total) =
                write_buffer_ok z (length b.data_read) b.data_read size st.out n w' v.writing
                  v.drained (IsImage-bytes Z memory addr b.data_read bytes (f.image whole))
                  (omega (arith, f.whole, small)) e in
              (
                b.data_read,
                f.image whole,
                f.whole,
                total ∙ omega (arith, f.whole),
                record {
                  written = written;
                  headers = sym (append-nil st.phdrs);
                  refusals = f.refusals;
                },
              )
    where
      read : Dump Encoder
      read = record st { answers = b.answers; mem_size = add_size st.mem_size b.got }

  IsImage-moved :
      (a a' : ℕ) (t : Bytes)
      → (a ≡ a') ⊎ (length t ≡ 0)
      → IsImage Z memory a t
      → IsImage Z memory a' t
  IsImage-moved a a' t (inl e) h = subst (λ x. IsImage Z memory x t) e h
  IsImage-moved a a' [] (inr e) h = tt
  IsImage-moved a a' (b ∷ t) (inr e) h = absurd (omega (arith, e))

  nothing-Added :
      (addr k size : ℕ) (st : Dump Encoder) → IsDumping st → k ≡ 0 → Added addr k size st size st
  nothing-Added addr k size st v e = (
    [],
    tt,
    sym e,
    omega (arith, e),
    record {
      written = Written-refl z st.out v.writing v.drained;
      headers = sym (append-nil st.phdrs);
      refusals = v.refusals;
    },
  )

  -- A buffer, and what follows it in the region.
  Added-trans :
      (addr end_addr size size' n : ℕ) (st st₁ st₂ : Dump Encoder)
      → addr < end_addr
      → Added addr (min (end_addr - addr) buffer_size) size st size' st₁
      → Added (addr + buffer_size) (end_addr - (addr + buffer_size)) size' st₁ n st₂
      → Added addr (end_addr - addr) size st n st₂
  Added-trans addr end_addr size size' n st st₁ st₂ below (s, sm, sl, sn, sv) (t, tm, tl, tn, tv) =
      (
        s ++ t,
        IsImage-append Z memory addr s t sm (
            IsImage-moved (addr + buffer_size) (addr + length s) t
              (meets (length s) (length t) sl tl) tm),
        length-append s t ∙ omega (arith, sl, tl, below),
        tn ∙ omega (arith, sn, below),
        Step-trans s t [] [] st st₁ st₂ sv tv,
      )
    where
      meets :
          (a b : ℕ)
          → a ≡ min (end_addr - addr) buffer_size
          → b ≡ end_addr - (addr + buffer_size)
          → (addr + buffer_size ≡ addr + a) ⊎ (b ≡ 0)
      meets a b h k = elim (Bool-cases (leb buffer_size (end_addr - addr))) [
        | inl e ↦ inl (omega (arith, h, leb→le buffer_size (end_addr - addr) e))
        | inr e ↦ inr (omega (arith, k, above buffer_size (end_addr - addr) e))
      ]
        where
          above : (a b : ℕ) → leb a b ≡ false → b < a
          above a b h = ground arith

  Added-Step :
      (addr k size : ℕ) (st : Dump Encoder) (n : ℕ) (st' : Dump Encoder)
      (a : Added addr k size st n st')
      → Step a.0 [] st st'
  Added-Step addr k size st n st' (s, m, l, c, v) = v

  Added-count :
      (addr k size : ℕ) (st : Dump Encoder) (n : ℕ) (st' : Dump Encoder)
      → Added addr k size st n st'
      → n ≡ size + k
  Added-count addr k size st n st' (s, m, l, c, v) = c

  dump_buffer-After :
      (addr req size : ℕ) (st : Dump Encoder)
      → IsDumping st
      → size + req < 2 ^ 64
      → After (λ n st'. Added addr req size st n st') (dump_buffer z memory addr req size st)
  unfolding dump_buffer
  dump_buffer-After addr req size st v small =
      dump_filled-After addr req size (fill_buffer memory st.answers addr req) st v
        (fill_buffer-IsFilled Z memory st.answers addr req v.refusals) small

  pub dump_range-After :
      (fuel addr end_addr size : ℕ) (st : Dump Encoder)
      → IsDumping st
      → end_addr ≤ ssize_max
      → size + (end_addr - addr) ≤ ssize_max
      → After
          (λ n st'. Added addr (end_addr - addr) size st n st')
          (dump_range z memory fuel addr end_addr size st)
  unfolding dump_range
  dump_range-After zero addr end_addr size st v low small =
      if-After _ (ltb addr end_addr) _ _ (λ _. tt)
        λ e. nothing-Added addr _ size st v (past addr end_addr e)
    where
      past : (a b : ℕ) → ltb a b ≡ false → b - a ≡ 0
      past a b h = ground arith
  dump_range-After (suc fuel) addr end_addr size st v low small =
      if-After _ (ltb addr end_addr) _ _
        (λ e.
          and_then-After (λ n st'. Added addr req size st n st') _
            (dump_buffer z memory addr req size st) _
            (dump_buffer-After addr req size st v (omega (arith, small)))
            λ size' st₁ a.
              subst
                (λ next.
                  After (λ n st'. Added addr (end_addr - addr) size st n st')
                    (dump_range z memory fuel next end_addr size' st₁))
                (sym (no_wrap (below addr end_addr e)))
                (After-map _ _ (dump_range z memory fuel (addr + buffer_size) end_addr size' st₁)
                  (λ n st₂.
                    Added-trans addr end_addr size size' n st st₁ st₂ (below addr end_addr e) a)
                  (dump_range-After fuel (addr + buffer_size) end_addr size' st₁
                    (Step-IsDumping a.0 [] st st₁ (Added-Step addr req size st size' st₁ a)) low
                    (omega (
                      arith,
                      small,
                      Added-count addr req size st size' st₁ a,
                      below addr end_addr e,
                    )))))
        λ e. nothing-Added addr _ size st v (past addr end_addr e)
    where
      req : ℕ
      req = min (end_addr - addr) buffer_size

      past : (a b : ℕ) → ltb a b ≡ false → b - a ≡ 0
      past a b h = ground arith

      below : (a b : ℕ) → ltb a b ≡ true → a < b
      below a b h = ground arith

      no_wrap : addr < end_addr → add_size addr buffer_size ≡ addr + buffer_size
      no_wrap h = omega (arith, low, h)
