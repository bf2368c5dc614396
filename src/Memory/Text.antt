-- ===== src/Memory/Text.antt =====
-- Texts that end with a 0, in a buffer of indeterminate bytes.
use zeromq_agent.Base.{
  ℕ, zero, suc, ◌<◌, ◌≤◌, ◌≡◌, refl, Bool, true, false, Option, none, some, [], ◌∷◌, length,
  replicate, All, arith,
}
use mathlib.Core.Option
use zeromq_agent.Memory.{Bytes, Block, write_cells, c_string}
use zeromq_agent.Memory.Laws.{defined}

-- No byte is 0.
abbrev pub Unterminated : Bytes → Type 0
Unterminated = All (λ x. 0 < x)

abbrev pub has_no_zero : Bytes → Bool
has_no_zero [] = true
has_no_zero (zero ∷ xs) = false
has_no_zero (suc _ ∷ xs) = has_no_zero xs

pub has_no_zero-Unterminated : (xs : Bytes) → has_no_zero xs ≡ true → Unterminated xs
has_no_zero-Unterminated [] h = tt
has_no_zero-Unterminated (zero ∷ xs) h = cc
has_no_zero-Unterminated (suc _ ∷ xs) h = (omega arith, has_no_zero-Unterminated xs h)

-- Bytes that fit are written over the start of a block.
pub write_cells-fits :
    (xs : Bytes) (b : Block)
    → length xs ≤ length b
    → (c : Block) × (write_cells xs b ≡ some (defined xs c)) × (length (defined xs c) ≡ length b)
unfolding write_cells
write_cells-fits [] b h = (b, refl, refl)
write_cells-fits (x ∷ xs) [] h = absurd (omega arith)
write_cells-fits (x ∷ xs) (_ ∷ b) h =
    let (c, e, same) = write_cells-fits xs b (omega arith) in (c, rw e refl, omega arith)

-- What was read up to a 0 with more in front of it.
map-none : (x : ℕ) (o : Option Bytes) → Option.map (λ xs. x ∷ xs) o ≡ none → o ≡ none
map-none x none h = refl
map-none x (some xs) h = cc

pub c_string-Unterminated :
    (xs : Bytes) (b : Block) → c_string (defined xs b) ≡ none → Unterminated xs
unfolding c_string
c_string-Unterminated [] b h = tt
c_string-Unterminated (zero ∷ xs) b h = cc
c_string-Unterminated (suc x ∷ xs) b h =
    (omega arith, c_string-Unterminated xs b (map-none (suc x) _ h))

pub c_string-indeterminate :
    (xs : Bytes) (b : Block) → Unterminated xs → c_string (defined xs (none ∷ b)) ≡ none
unfolding c_string
c_string-indeterminate [] b h = refl
c_string-indeterminate (zero ∷ xs) b h = absurd (omega (arith, h.0))
c_string-indeterminate (suc x ∷ xs) b h = rw (c_string-indeterminate xs b h.1) refl

-- Bytes written over a new array that has room for more.
pub write_cells-new :
    (xs : Bytes) (room : ℕ)
    → length xs < room
    → (rest : Block) × (write_cells xs (replicate room none) ≡ some (defined xs (none ∷ rest)))
unfolding write_cells
write_cells-new [] zero h = absurd (omega arith)
write_cells-new [] (suc room) h = (replicate room none, refl)
write_cells-new (x ∷ xs) zero h = absurd (omega arith)
write_cells-new (x ∷ xs) (suc room) h =
    let (rest, e) = write_cells-new xs room (omega arith) in (rest, rw e refl)
