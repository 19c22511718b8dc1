-- ===== src/Core/Notes/Selection.antt =====
-- The regions that the note of the mapped files lists (`fill_file` in src/core.cc).
use arthur.Base.{
  ℕ, ◌≡◌, ◌<◌, sym, ap, ◌∙◌, arith, true, false, ◌==◌, ◌&&◌, not, inl, inr, ◌⊎◌, if_true, if_false,
}
use arthur.Base.{List, [], ◌∷◌, length}
use arthur.Core.Loads.{MemRegion}
use arthur.Core.Notes.{file_entries}

-- The entries are the regions with a name and an inode, in their order, and no others.
abbrev pub Selected : List MemRegion → List MemRegion → Type 0
Selected [] entries = entries ≡ []
Selected (r ∷ maps) entries =
    ((0 < length r.name)
      × (0 < r.inode)
      × ((rest : List MemRegion) × (entries ≡ r ∷ rest) × Selected maps rest))
    ⊎ (((length r.name ≡ 0) ⊎ (r.inode ≡ 0)) × Selected maps entries)

pub file_entries-Selected :
    (maps entries : List MemRegion) → Selected maps entries → file_entries maps ≡ entries
unfolding file_entries
file_entries-Selected [] entries h = sym h
file_entries-Selected (r ∷ maps) entries (inl (named, on_disk, (rest, e, h))) =
    if_true _ _ (kept (length r.name) r.inode named on_disk)
    ∙ ap (λ t. r ∷ t) (file_entries-Selected maps rest h)
    ∙ sym e
  where
    kept : (n i : ℕ) → 0 < n → 0 < i → (not (n == 0) && not (i == 0)) ≡ true
    kept n i h k = ground arith
file_entries-Selected (r ∷ maps) entries (inr (no_file, h)) =
    if_false _ _ (passed (length r.name) r.inode no_file) ∙ file_entries-Selected maps entries h
  where
    passed : (n i : ℕ) → (n ≡ 0) ⊎ (i ≡ 0) → (not (n == 0) && not (i == 0)) ≡ false
    passed n i (inl h) = ground arith
    passed n i (inr h) = ground arith
