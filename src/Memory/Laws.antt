-- ===== src/Memory/Laws.antt =====
-- What a read finds after a write.
use zeromq_agent.Base.{
  ℕ, zero, suc, ◌+◌, ◌≡◌, refl, ◌≢◌, ap, Option, none, some, List, [], ◌∷◌, ◌++◌, map, arith,
  length, replicate, ◌==◌, ◌<◌, ◌≤◌,
}
use zeromq_agent.Memory.{
  Ptr, null, Bytes, Block, Heap, put, grow, release, read_cells, read_block, read, write_cells,
  write_block, write,
}

-- Bytes that are all defined, followed by any block.
abbrev pub defined : Bytes → Block → Block
defined xs b = map some xs ++ b

-- Zeros written over the start of a new block.
pub write_cells-replicate :
    (n : ℕ) (b : Block)
    → write_cells (replicate n 0) (replicate n none ++ b) ≡ some (defined (replicate n 0) b)
unfolding write_cells
write_cells-replicate zero b = refl
write_cells-replicate (suc n) b = rw (write_cells-replicate n b)

pub write_cells-defined :
    (xs ys : Bytes) (b : Block)
    → length xs ≡ length ys
    → write_cells xs (defined ys b) ≡ some (defined xs b)
unfolding write_cells
write_cells-defined [] [] b e = refl
write_cells-defined [] (y ∷ ys) b e = absurd (omega arith)
write_cells-defined (x ∷ xs) [] b e = absurd (omega arith)
write_cells-defined (x ∷ xs) (y ∷ ys) b e = rw (write_cells-defined xs ys b (omega arith))

-- The defined bytes are read back.
pub read_cells-defined : (xs : Bytes) (b : Block) → read_cells (length xs) (defined xs b) ≡ some xs
unfolding read_cells
read_cells-defined [] b = refl
read_cells-defined (x ∷ xs) b = rw (read_cells-defined xs b)

-- One byte more is indeterminate.
pub read_cells-past :
    (xs : Bytes) (b : Block) → read_cells (suc (length xs)) (defined xs (none ∷ b)) ≡ none
unfolding read_cells
read_cells-past [] b = refl
read_cells-past (x ∷ xs) b = rw (read_cells-past xs b)

pub block-put : (h : Heap) (p : Ptr) (b : Option Block) → (put h p b).block p ≡ b
unfolding put
block-put h p b = ground arith

pub block-put_ne :
    (h : Heap) (p : Ptr) (b : Option Block) (q : Ptr) → q ≢ p → (put h p b).block q ≡ h.block q
unfolding put
block-put_ne h p b q ne = ground arith

pub next-put : (h : Heap) (p : Ptr) (b : Option Block) → (put h p b).next ≡ h.next
unfolding put
next-put h p b = refl

pub block-grow : (b : Block) (h : Heap) → (grow b h).block h.next ≡ some b
unfolding grow
block-grow b h = ground arith

pub block-grow_ne : (b : Block) (h : Heap) (q : Ptr) → q ≢ h.next → (grow b h).block q ≡ h.block q
unfolding grow
block-grow_ne b h q ne = ground arith

pub next-grow : (b : Block) (h : Heap) → (grow b h).next ≡ h.next + 1
unfolding grow
next-grow b h = refl

pub ruleset heap_laws =
    (arith, block-put, block-put_ne, next-put, block-grow, block-grow_ne, next-grow)

pub write-put :
    (h : Heap) (p : Ptr) (xs : Bytes) {b c : Block}
    → h.block p ≡ some b
    → write_cells xs b ≡ some c
    → write p xs h ≡ some (put h p (some c))
unfolding write write_block
write-put h p xs e f = rw e (rw f)

pub read-block :
    (h : Heap) (p : Ptr) (n : ℕ) {b : Block} {xs : Bytes}
    → h.block p ≡ some b
    → read_cells n b ≡ some xs
    → read p n h ≡ some xs
unfolding read read_block read_cells
read-block h p zero e f = f
read-block h p (suc n) e f = rw e f

pub read-none :
    (h : Heap) (p : Ptr) (n : ℕ) {b : Block}
    → h.block p ≡ some b
    → read_cells (suc n) b ≡ none
    → read p (suc n) h ≡ none
unfolding read read_block read_cells
read-none h p n e f = rw e f

pub release-put :
    (h : Heap) (p : Ptr) {b : Block}
    → 0 < p
    → h.block p ≡ some b
    → release p h ≡ some (put h p none)
unfolding release
release-put h p pos e = ground arith

-- No block stands at NULL or at an address that is still to come.
pub record IsHeap (h : Heap) : Type 0 where
  pub next_pos : 0 < h.next
  pub no_null : h.block null ≡ none
  pub unused : (q : Ptr) → h.next ≤ q → h.block q ≡ none

pub read-zero : (p : Ptr) (h : Heap) → read p 0 h ≡ some []
unfolding read
read-zero p h = refl

pub read-put : (p : Ptr) (n : ℕ) (h : Heap) → 0 < n → read p n (put h p none) ≡ none
unfolding read read_block
read-put p zero h pos = elim pos [ ]
read-put p (suc n) h pos = rw block-put
