-- ===== src/Fs/Allocation.antt =====
-- The calls of kern/memory/kmalloc.c that kern/fs/fs.c makes, on the heap of Memory.Kmalloc. Both return on a heap
-- in a state that calls lead to; elsewhere, where a loop is not done on its fuel, the null pointer stands for the
-- result of `kmalloc`, and `kfree` keeps the heap.
use astral_os.Common.{ℕ, ◌+◌, ◌%◌, ◌^◌, ◌≤◌, ◌<◌, ◌≡◌, ◌≢◌, ◌∙◌, sym, ap, none, some, List}
use astral_os.Memory.Kmalloc.{Heap, header_size, kmalloc, kfree}
use astral_os.Memory.Kmalloc.Grants.{Grant, Granted, Reach}
use astral_os.Memory.Kmalloc.Client.{Reach-returns}

unfoldable pub allocate : Heap → (size : ℕ) → ℕ × Heap
allocate h size = elim (kmalloc h size) [ none ↦ (0, h) | some got ↦ got ]

unfoldable pub release : Heap → (ptr : ℕ) → Heap
release h ptr = elim (kfree h ptr) [ none ↦ h | some left ↦ left ]

-- The heap serves an inode.
abbrev pub HasRoom : Heap → Type 0
HasRoom h = (allocate h 88).0 ≢ 0

-- The heap is in a state that `kmalloc_init` and calls lead to which free only what is held.
pub record IsInUse (h : Heap) : Type 0 where
  pub start : ℕ
  pub len : ℕ
  pub live : List Grant
  pub some_start : 0 < start
  pub aligned : start % 8 ≡ 0
  pub big : header_size ≤ len
  pub top : start + len < 2 ^ 64
  pub reach : Reach start len h live

-- On such a heap `kmalloc` returns, and what it returns is `allocate`.
kmalloc-allocate : (h : Heap) (size : ℕ) → IsInUse h → kmalloc h size ≡ some (allocate h size)
unfolding allocate
kmalloc-allocate h size u =
    let (q, h', e) =
      (Reach-returns u.start u.len u.some_start u.aligned u.big u.top u.reach).0 size in
    e ∙ ap (λ r. some (elim r [ none ↦ (0, h) | some got ↦ got ])) (sym e)

-- So does `kfree` of what is held, and what it returns is `release`.
kfree-release :
    (h : Heap) (p : ℕ) (u : IsInUse h) → Granted p u.live → kfree h p ≡ some (release h p)
unfolding release
kfree-release h p u held =
    let (h', e) =
      (Reach-returns u.start u.len u.some_start u.aligned u.big u.top u.reach).1 p held in
    e ∙ ap (λ r. some (elim r [ none ↦ h | some left ↦ left ])) (sym e)
