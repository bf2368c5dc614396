-- ===== src/Weather/Texts.antt =====
-- wuserver.c, generateString.
pub mod Updates
pub mod Letters
use zeromq_agent.Base.{
  ℕ, zero, suc, ◌+◌, ◌-◌, ◌%◌, ◌≤◌, ◌<◌, ◌≡◌, ◌≢◌, refl, Bool, true, false, Option, none, some,
  List, [], ◌∷◌, ltb, ◌==◌, if◌then◌else◌, get_elem?, length, replicate, length-replicate, arith,
  ◌⊎◌, inl, inr, Bool-cases,
}
use zeromq_agent.Base.Int.{ℤ, pos, negsuc}
use zeromq_agent.Base.Text.{codes}
use zeromq_agent.Memory.{Bytes}
use zeromq_agent.Weather.{test_size}

abbrev pub array : Bytes
array = b'A' ∷ b'B' ∷ b'D' ∷ b'E' ∷ b'F' ∷ b'G' ∷ b'H' ∷ b'I' ∷ []

abbrev pub array_size : ℕ
array_size = 8

-- The text, or the end of the program, or a write outside the buffer.
pub data Generated : Type 0 where
  text : Bytes → Generated
  exited : Generated
  out_of_bounds : Generated

abbrev pub checked : Option Bytes → Generated
checked none = out_of_bounds
checked (some mem) = text mem

abbrev pub update : ℕ → ℕ → Bytes → Bytes
update i a [] = []
update zero a (x ∷ xs) = a ∷ xs
update (suc i) a (x ∷ xs) = x ∷ update i a xs

-- `mem[i] = a`
unfoldable pub set_at : ℕ → ℕ → Bytes → Option Bytes
set_at i a mem = if ltb i (length mem) then some (update i a mem) else none

-- `ARRAY[j]`
unfoldable pub letter_at : ℕ → Option ℕ
letter_at j = get_elem? array j

-- `mem[i] = ARRAY[j]`
unfoldable pub set_letter : ℕ → ℕ → Bytes → Option Bytes
unfolding set_at letter_at
set_letter i j mem = elim (letter_at j) [ none ↦ none | some a ↦ set_at i a mem ]

abbrev pub wrapped : ℕ → ℕ
wrapped j = if j == array_size then 0 else j

-- The rounds of the loop that are left.
unfoldable pub fill : ℕ → ℕ → ℕ → Bytes → Option Bytes
unfolding set_letter
fill zero i j mem = some mem
fill (suc n) i j mem = elim (set_letter i (wrapped j) mem) [
  | none ↦ none
  | some mem' ↦ fill n (i + 1) (wrapped j + 1) mem'
]

-- `size - 1` as an index; `none` is below the buffer.
abbrev pub last_index : ℤ → Option ℕ
last_index (pos (suc n)) = some n
last_index _ = none

-- The rounds of the loop over `i < size`.
abbrev pub rounds : ℤ → ℕ
rounds (pos n) = n
rounds (negsuc _) = 0

-- `mem[size-1] = '\0'`
unfoldable pub terminate : ℤ → Bytes → Option Bytes
unfolding set_at
terminate size mem = elim (last_index size) [ none ↦ none | some i ↦ set_at i 0 mem ]

-- After the loop.
abbrev pub finish : ℤ → Option Bytes → Generated
finish size none = out_of_bounds
finish size (some filled) = checked (terminate size filled)

unfoldable pub fill_text : ℤ → Bytes → Generated
unfolding fill terminate
fill_text size mem = finish size (fill (rounds size) 0 0 mem)

-- The flag says whether `calloc` returned memory, which is filled with zeros.
unfoldable pub generate_string : Bool → ℤ → Generated
unfolding fill_text
generate_string false size = exited
generate_string true size = fill_text size (replicate test_size 0)
