-- ===== src/Memory.antt =====
-- The process memory that the C++ code and libzmq share: blocks by their start address, as
-- general_api.h, client_api.cpp and server_api.cpp use it (`new char[]`, `delete[]`, `memset`,
-- `memcpy`, a `std::string` made from a pointer and a size). Addresses are not used again.
pub mod Laws
pub mod Text
use zeromq_agent.Base.{
  ℕ, zero, suc, ◌+◌, Option, none, some, List, [], ◌∷◌, ◌==◌, if◌then◌else◌, replicate,
}
use mathlib.Core.Option

abbrev pub Ptr : Type 0
Ptr = ℕ

abbrev pub null : Ptr
null = 0

abbrev pub Bytes : Type 0
Bytes = List ℕ

-- `none` is a byte of indeterminate value.
abbrev pub Block : Type 0
Block = List (Option ℕ)

pub record Heap : Type 0 where
  pub next : Ptr
  pub block : Ptr → Option Block

unfoldable pub put : Heap → Ptr → Option Block → Heap
put h p b = record h { block = λ q. if q == p then b else h.block q }

-- A new block at the next address.
unfoldable pub grow : Block → Heap → Heap
grow b h = record { next = h.next + 1; block = λ q. if q == h.next then some b else h.block q }

abbrev pub allocate : Block → Heap → Ptr × Heap
allocate b h = (h.next, grow b h)

-- `delete[] p`: nothing for NULL, and `none` where `p` is no live block.
unfoldable pub release : Ptr → Heap → Option Heap
release p h =
    if p == null then some h else elim (h.block p) [ none ↦ none | some _ ↦ some (put h p none) ]

-- The first `n` bytes; `none` past the end and at a byte of indeterminate value.
unfoldable pub read_cells : ℕ → Block → Option Bytes
read_cells zero b = some []
read_cells (suc n) [] = none
read_cells (suc n) (none ∷ b) = none
read_cells (suc n) (some x ∷ b) = Option.map (λ xs. x ∷ xs) (read_cells n b)

unfoldable pub read_block : ℕ → Option Block → Option Bytes
unfolding read_cells
read_block n none = none
read_block n (some b) = read_cells n b

-- `n` bytes from `p` on: nothing is read for `n = 0`, whatever `p` is.
unfoldable pub read : Ptr → ℕ → Heap → Option Bytes
unfolding read_block
read p zero h = some []
read p (suc n) h = read_block (suc n) (h.block p)

-- The bytes written over the start of a block; `none` past its end.
unfoldable pub write_cells : Bytes → Block → Option Block
write_cells [] b = some b
write_cells (x ∷ xs) [] = none
write_cells (x ∷ xs) (_ ∷ b) = Option.map (λ c. some x ∷ c) (write_cells xs b)

unfoldable pub write_block : Bytes → Option Block → Option Block
unfolding write_cells
write_block xs none = none
write_block xs (some b) = write_cells xs b

-- `memcpy (p, xs, n)`, with the `n` bytes `xs`.
unfoldable pub write : Ptr → Bytes → Heap → Option Heap
unfolding write_block
write p xs h = Option.map (λ b. put h p (some b)) (write_block xs (h.block p))

-- A text that ends with a 0, as `printf` reads it: the bytes before the 0. `none` where a byte of
-- indeterminate value or the end of the block comes before any 0.
pub c_string : Block → Option Bytes
c_string [] = none
c_string (none ∷ b) = none
c_string (some zero ∷ b) = some []
c_string (some (suc x) ∷ b) = Option.map (λ xs. suc x ∷ xs) (c_string b)
