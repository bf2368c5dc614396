-- ===== src/Weather/Texts/Letters.antt =====
-- wuserver.c, generateString: which letters stand where.
use zeromq_agent.Base.{
  ℕ, zero, suc, ◌+◌, ◌%◌, ◌≤◌, ◌<◌, ◌≡◌, refl, ap, ◌∙◌, sym, true, none, some, ltb, ◌==◌, get_elem?,
  length, replicate, arith, inl, inr, Bool-cases,
}
use zeromq_agent.Base.Int.{pos}
use zeromq_agent.Memory.{Bytes}
use zeromq_agent.Weather.{test_size}
use zeromq_agent.Weather.Texts.{
  array, letter_at, checked, finish, Generated, text, exited, out_of_bounds, update, set_at,
  set_letter, wrapped, fill, terminate, fill_text, generate_string,
}
use zeromq_agent.Weather.Texts.Updates.{
  length-update, get-update, get-update_ne, get-below, length-zeros, get-replicate, set_at-update,
  set_at-none,
}

letter_at-below : (k : ℕ) → k < 8 → (a : ℕ) × (letter_at k ≡ some a)
unfolding letter_at
letter_at-below k h = get-below array k h

-- The letters from `i` on are those of the array in turn, and the rest is as before.
record Filled (i n : ℕ) (before after : Bytes) : Type 0 where
  same_length : length after ≡ length before
  letters : (k : ℕ) → i ≤ k → k < i + n → get_elem? after k ≡ letter_at (k % 8)
  earlier : (k : ℕ) → k < i → get_elem? after k ≡ get_elem? before k
  later : (k : ℕ) → i + n ≤ k → get_elem? after k ≡ get_elem? before k

set_letter-update :
    (i j a : ℕ) (mem : Bytes)
    → letter_at j ≡ some a
    → i < length mem
    → set_letter i j mem ≡ some (update i a mem)
unfolding set_letter
set_letter-update i j a mem letter room =
    ap (λ o. elim o [ none ↦ none | some b ↦ set_at i b mem ]) letter ∙ set_at-update i a mem room

fill-suc :
    (n i j a : ℕ) (mem : Bytes)
    → letter_at (wrapped j) ≡ some a
    → i < length mem
    → fill (suc n) i j mem ≡ fill n (i + 1) (wrapped j + 1) (update i a mem)
unfolding fill
fill-suc n i j a mem letter room =
    ap (λ o. elim o [ none ↦ none | some mem' ↦ fill n (i + 1) (wrapped j + 1) mem' ])
      (set_letter-update i (wrapped j) a mem letter room)

Filled-suc :
    (n i a : ℕ) (before after : Bytes)
    → i < length before
    → letter_at (i % 8) ≡ some a
    → Filled (i + 1) n (update i a before) after
    → Filled i (suc n) before after
Filled-suc n i a before after room letter filled = record {
  same_length = filled.same_length ∙ length-update i a before;
  letters = λ k from below. elim (Bool-cases (k == i)) [
    | inl e ↦
        let here : k ≡ i = ground arith in
        rw here (filled.earlier i (omega arith) ∙ get-update i a before room ∙ sym letter)
    | inr e ↦ filled.letters k (ground arith) (omega arith)
  ];
  earlier = λ k h. filled.earlier k (omega arith) ∙ get-update_ne i a before k (omega arith);
  later = λ k h. filled.later k (omega arith) ∙ get-update_ne i a before k (omega arith);
}

next_turn : (i j : ℕ) → wrapped j ≡ i % 8 → wrapped (wrapped j + 1) ≡ (i + 1) % 8
next_turn i j turn = rw turn (ground arith)

-- A loop of `n` rounds from `i` on.
abbrev Fills : ℕ → ℕ → ℕ → Bytes → Type 0
Fills n i j mem = (after : Bytes) × (fill n i j mem ≡ some after) × Filled i n mem after

fill-Filled : (n i j : ℕ) (mem : Bytes) → i + n ≤ length mem → wrapped j ≡ i % 8 → Fills n i j mem
unfolding fill
fill-Filled zero i j mem room turn = (
  mem,
  refl,
  record {
    same_length = refl;
    letters = λ k from below. absurd (omega arith);
    earlier = λ k h. refl;
    later = λ k h. refl;
  },
)
fill-Filled (suc n) i j mem room turn = step (letter_at-below (i % 8) (omega arith)) (λ a.
    fill-Filled n (i + 1) (wrapped j + 1) (update i a mem) (omega (arith, length-update i a mem))
      (next_turn i j turn))
  where
    step :
        (a : ℕ) × (letter_at (i % 8) ≡ some a)
        → ((a : ℕ) → Fills n (i + 1) (wrapped j + 1) (update i a mem))
        → Fills (suc n) i j mem
    step (a, letter) rest =
        let (after, ends, filled) = rest a in
        let first = fill-suc n i j a mem (rw turn letter) (omega arith) in
        (after, first ∙ ends, Filled-suc n i a mem after (omega arith) letter filled)

-- The text of `size` characters that `generateString` promises: the letters of the array in turn,
-- and zeros from the last character to the end of the buffer.
abbrev pub Letters : ℕ → ℕ → Generated → Type 0
Letters n room (text mem) =
    (length mem ≡ room)
    × ((k : ℕ) → k < n → get_elem? mem k ≡ letter_at (k % 8))
    × ((k : ℕ) → n ≤ k → k < room → get_elem? mem k ≡ some 0)
Letters n room exited = ⊥
Letters n room out_of_bounds = ⊥

fill_text-update :
    (n room : ℕ) (filled : Bytes)
    → fill (suc n) 0 0 (replicate room 0) ≡ some filled
    → n < length filled
    → fill_text (pos (suc n)) (replicate room 0) ≡ text (update n 0 filled)
unfolding fill_text terminate
fill_text-update n room filled ends room_left =
    ap (finish (pos (suc n))) ends ∙ ap checked (set_at-update n 0 filled room_left)

Letters-update :
    (n room : ℕ) (filled : Bytes)
    → n < room
    → Filled 0 (suc n) (replicate room 0) filled
    → Letters n room (text (update n 0 filled))
Letters-update n room filled h f =
    let same : length filled ≡ room = f.same_length ∙ length-zeros room in
    (
      length-update n 0 filled ∙ same,
      λ k below. get-update_ne n 0 filled k (omega arith) ∙ f.letters k (omega arith) (omega arith),
      λ k from below. elim (Bool-cases (k == n)) [
        | inl e ↦ let here : k ≡ n = ground arith in rw here (get-update n 0 filled (omega arith))
        | inr e ↦
            let past : suc n ≤ k = ground arith in
            get-update_ne n 0 filled k (omega arith)
            ∙ f.later k (omega arith)
            ∙ get-replicate room 0 k below
      ],
    )

fill_text-Letters :
    (n room : ℕ) → n < room → Letters n room (fill_text (pos (suc n)) (replicate room 0))
fill_text-Letters n room h =
    let size = length-zeros room in
    let (filled, ends, f) = fill-Filled (suc n) 0 0 (replicate room 0) (omega arith) refl in
    let same = f.same_length in
    rw (fill_text-update n room filled ends (omega arith)) (Letters-update n room filled h f)

set_letter-none :
    (i j a : ℕ) (mem : Bytes) → letter_at j ≡ some a → length mem ≤ i → set_letter i j mem ≡ none
unfolding set_letter
set_letter-none i j a mem letter full =
    ap (λ o. elim o [ none ↦ none | some b ↦ set_at i b mem ]) letter ∙ set_at-none i a mem full

fill-none :
    (n i j : ℕ) (mem : Bytes)
    → i ≤ length mem
    → length mem < i + n
    → wrapped j ≡ i % 8
    → fill n i j mem ≡ none
unfolding fill
fill-none zero i j mem within past turn = absurd (omega arith)
fill-none (suc n) i j mem within past turn = step (letter_at-below (i % 8) (omega arith)) (λ a room.
    fill-none n (i + 1) (wrapped j + 1) (update i a mem) (omega (arith, length-update i a mem))
      (omega (arith, length-update i a mem)) (next_turn i j turn))
  where
    step :
        (a : ℕ) × (letter_at (i % 8) ≡ some a)
        → ((a : ℕ) → i < length mem → fill n (i + 1) (wrapped j + 1) (update i a mem) ≡ none)
        → fill (suc n) i j mem ≡ none
    step (a, letter) rest = elim (Bool-cases (ltb i (length mem))) [
      | inl e ↦
          let room : i < length mem = ground arith in
          fill-suc n i j a mem (rw turn letter) room ∙ rest a room
      | inr e ↦
          ap (λ o. elim o [ none ↦ none | some mem' ↦ fill n (i + 1) (wrapped j + 1) mem' ])
            (set_letter-none i (wrapped j) a mem (rw turn letter) (ground arith))
    ]

-- Where `calloc` gives memory and `size` is from 1 to `TEST_SIZE`, `generateString` writes inside the
-- buffer only and returns all of it: the first `size - 1` characters are the eight letters in turn,
-- and every later one is zero.
pub generate_string-Letters :
    (n : ℕ) → n < test_size → Letters n test_size (generate_string true (pos (suc n)))
unfolding generate_string
generate_string-Letters n h = fill_text-Letters n test_size h

fill_text-out_of_bounds :
    (n room : ℕ) → room ≤ n → fill_text (pos (suc n)) (replicate room 0) ≡ out_of_bounds
unfolding fill_text
fill_text-out_of_bounds n room h =
    let size = length-zeros room in
    ap (finish (pos (suc n)))
      (fill-none (suc n) 0 0 (replicate room 0) (omega arith) (omega arith) refl)

-- Where `size` is above `TEST_SIZE`, `generateString` writes outside its buffer.
pub generate_string-out_of_bounds :
    (n : ℕ) → test_size ≤ n → generate_string true (pos (suc n)) ≡ out_of_bounds
unfolding generate_string
generate_string-out_of_bounds n h = fill_text-out_of_bounds n test_size h
