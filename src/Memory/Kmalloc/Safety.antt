-- ===== src/Memory/Kmalloc/Safety.antt =====
-- What first fit and the coalescing pass do to the blocks in use.
use astral_os.Common.{
  ℕ, ◌+◌, ◌-◌, ◌≤◌, ◌<◌, ◌≡◌, ◌≢◌, ◌⊎◌, inl, inr, refl, sym, ◌∙◌, subst, ==_ne, Bool, true, false,
  ◌&&◌, Option, none, some, List, [], ◌∷◌, arith, ◌==◌, ltb, leb, Bool-cases,
}
use astral_os.Memory.Kmalloc.{header_size}
use astral_os.Memory.Kmalloc.Blocks.{Block, split, found, alloc, release, coalesce, Holds, Holds-le}

-- Two payloads at different addresses have a header between them at least.
pub Holds-apart :
    (s : ℕ) (bs : List Block) (x n y m : ℕ) (f g : Bool)
    → Holds s bs x n f
    → Holds s bs y m g
    → x ≢ y
    → (x + n + header_size ≤ y) ⊎ (y + m + header_size ≤ x)
Holds-apart s [] x n y m f g hx hy ne = absurd hx
Holds-apart s (b ∷ bs) x n y m f g (inl hx) (inl hy) ne = absurd (omega arith)
Holds-apart s (b ∷ bs) x n y m f g (inl hx) (inr hy) ne =
    inl (omega (arith, Holds-le (s + header_size + b.size) bs y m g hy))
Holds-apart s (b ∷ bs) x n y m f g (inr hx) (inl hy) ne =
    inr (omega (arith, Holds-le (s + header_size + b.size) bs x n f hx))
Holds-apart s (b ∷ bs) x n y m f g (inr hx) (inr hy) ne =
    Holds-apart (s + header_size + b.size) bs x n y m f g hx hy ne

-- What a successful first fit leaves: the block taken, and every block in use as it was.
pub record Fits (size s : ℕ) (bs : List Block) (a : ℕ) (cs : List Block) : Type 0 where
  pub taken : (n : ℕ) × (size ≤ n) × Holds s cs a n false
  pub kept : (x n : ℕ) → Holds s bs x n false → (x ≢ a) × Holds s cs x n false

used-behind :
    (s : ℕ) (b : Block) (bs : List Block) (x n : ℕ)
    → b.free ≡ true
    → Holds s (b ∷ bs) x n false
    → Holds (s + header_size + b.size) bs x n false
used-behind s b bs x n free (inl (at, size, used)) = absurd (ground arith)
used-behind s b bs x n free (inr h) = h

used-ne :
    (s : ℕ) (b : Block) (bs : List Block) (x n : ℕ)
    → Holds (s + header_size + b.size) bs x n false
    → x ≢ s + header_size
used-ne s b bs x n h e = absurd (omega (arith, Holds-le (s + header_size + b.size) bs x n false h))

Fits-split :
    (size s : ℕ) (b : Block) (bs : List Block)
    → b.free ≡ true
    → size ≤ b.size
    → Fits size s (b ∷ bs) (s + header_size) (split size b bs)
Fits-split size s b bs free fit = elim (Bool-cases (ltb (size + header_size) b.size)) [
  | inl more ↦
      let at : s + header_size + b.size
          ≡ s + header_size + size + header_size + (b.size - size - header_size) =
        ground arith in
      rw more (record {
        taken = (size, omega arith, inl (refl, refl, refl));
        kept = λ x n h.
            let r = used-behind s b bs x n free h in
            (used-ne s b bs x n r, inr (inr (subst (λ t. Holds t bs x n false) at r)));
      })
  | inr whole ↦ rw whole (record {
    taken = (b.size, fit, inl (refl, refl, refl));
    kept = λ x n h. let r = used-behind s b bs x n free h in (used-ne s b bs x n r, inr r);
  })
]

kept-cons :
    (size s : ℕ) (b : Block) (bs : List Block) (a : ℕ) (cs : List Block)
    → s + header_size < a
    → Fits size (s + header_size + b.size) bs a cs
    → (x n : ℕ) → Holds s (b ∷ bs) x n false
    → (x ≢ a) × Holds s (b ∷ cs) x n false
kept-cons size s b bs a cs past fits x n (inl (at, len, used)) = (omega arith, inl (at, len, used))
kept-cons size s b bs a cs past fits x n (inr h) = let (ne, k) = fits.kept x n h in (ne, inr k)

Fits-cons :
    (size s : ℕ) (b : Block) (bs : List Block) (a : ℕ) (cs : List Block)
    → Fits size (s + header_size + b.size) bs a cs
    → Fits size s (b ∷ bs) a (b ∷ cs)
Fits-cons size s b bs a cs fits =
    let (n, fit, at) = fits.taken in
    let past = Holds-le (s + header_size + b.size) cs a n false at in
    record { taken = (n, fit, inr at); kept = kept-cons size s b bs a cs (omega arith) fits }

-- No free block has room for `size` bytes.
abbrev pub NoRoom : ℕ → List Block → Type 0
NoRoom size [] = Unit
NoRoom size (b ∷ bs) = (b.free ≡ true → b.size < size) × NoRoom size bs

abbrev pub Outcome : (size s : ℕ) → List Block → Option (ℕ × List Block) → Type 0
Outcome size s bs none = NoRoom size bs
Outcome size s bs (some (a, cs)) = Fits size s bs a cs

Outcome-found :
    (size s : ℕ) (b : Block) (bs : List Block) (o : Option (ℕ × List Block))
    → (b.free && leb size b.size) ≡ false
    → Outcome size (s + header_size + b.size) bs o
    → Outcome size s (b ∷ bs) (found b o)
Outcome-found size s b bs none miss r = (λ free. ground arith, r)
Outcome-found size s b bs (some (a, cs)) miss r = Fits-cons size s b bs a cs r

-- First fit fails only where no free block has room. Where it succeeds it hands out a block of the
-- size asked for at least, that was not in use, and leaves every block in use as it was.
pub alloc-Outcome : (size s : ℕ) (bs : List Block) → Outcome size s bs (alloc size s bs)
unfolding alloc
alloc-Outcome size s [] = tt
alloc-Outcome size s (b ∷ bs) = elim (Bool-cases (b.free && leb size b.size)) [
  | inl hit ↦ rw hit (Fits-split size s b bs (ground arith) (ground arith))
  | inr miss ↦
      rw miss (Outcome-found size s b bs _ miss (alloc-Outcome size (s + header_size + b.size) bs))
]

-- Marking one block leaves the others in use.
pub Holds-release :
    (ptr s : ℕ) (bs : List Block) (x n : ℕ)
    → x ≢ ptr
    → Holds s bs x n false
    → Holds s (release ptr s bs) x n false
unfolding release
Holds-release ptr s [] x n ne h = h
Holds-release ptr s (b ∷ bs) x n ne (inl (at, size, used)) =
    rw (==_ne ptr (s + header_size) (λ e. ne (at ∙ sym e))) (inl (at, size, used))
Holds-release ptr s (b ∷ bs) x n ne (inr k) = elim (Bool-cases (ptr == s + header_size)) [
  | inl hit ↦ rw hit (inr k)
  | inr miss ↦ rw miss (inr (Holds-release ptr (s + header_size + b.size) bs x n ne k))
]

-- The coalescing pass leaves the blocks in use where they are.
pub Holds-coalesce :
    (s : ℕ) (bs : List Block) (x n : ℕ) → Holds s bs x n false → Holds s (coalesce bs) x n false
unfolding coalesce
Holds-coalesce s [] x n h = h
Holds-coalesce s (b ∷ []) x n h = h
Holds-coalesce s (b ∷ c ∷ bs) x n (inl (at, size, used)) =
    let busy : (b.free && c.free) ≡ false = ground arith in
    rw (busy, coalesce) (inl (at, size, used))
Holds-coalesce s (b ∷ c ∷ bs) x n (inr h) = elim (Bool-cases (b.free && c.free)) [
  | inl free ↦
      let at : s + header_size + b.size + header_size + c.size
          ≡ s + header_size + (b.size + header_size + c.size) =
        omega arith in
      let k = used-behind (s + header_size + b.size) c bs x n (ground arith) h in
      rw (free, coalesce)
        (inr (
          subst (λ t. Holds t (coalesce bs) x n false) at
            (Holds-coalesce (s + header_size + b.size + header_size + c.size) bs x n k)))
  | inr busy ↦ rw (busy, coalesce) (inr (Holds-coalesce (s + header_size + b.size) (c ∷ bs) x n h))
]
