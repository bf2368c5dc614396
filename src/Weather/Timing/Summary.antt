-- ===== src/Weather/Timing/Summary.antt =====
-- wuclient.c, main: what the statistics say of the times.
use zeromq_agent.Base.{
  ℕ, zero, suc, ◌+◌, ◌%◌, ◌^◌, ◌≤◌, ◌<◌, ◌≡◌, refl, ◌∙◌, List, [], ◌∷◌, ◌⊎◌, inl, inr, Bool-cases,
  ltb, All, arith,
}
use zeromq_agent.Weather.Timing.{Reading, Statistics, at_start, time_took, add_sample}

-- The times of the rounds.
abbrev pub times : (ℕ → Reading) → ℕ → ℕ → List ℕ
times readings zero i = []
times readings (suc n) i = time_took (readings i) ∷ times readings n (suc i)

abbrev pub sum : List ℕ → ℕ
sum [] = 0
sum (t ∷ ts) = t + sum ts

-- The times that the total counts: those after the first that is not 0.
abbrev pub counted : List ℕ → List ℕ
counted [] = []
counted (zero ∷ ts) = counted ts
counted (suc _ ∷ ts) = ts

abbrev pub Among : ℕ → List ℕ → Type 0
Among a [] = ⊥
Among a (t ∷ ts) = (a ≡ t) ⊎ Among a ts

-- The statistics after rounds that took these times.
unfoldable pub add_all : List ℕ → Statistics → Statistics
add_all [] s = s
add_all (t ∷ ts) s = add_all ts (add_sample t s)

add_sample-max :
    (t : ℕ) (s : Statistics) → (s.max ≤ (add_sample t s).max) × (t ≤ (add_sample t s).max)
unfolding add_sample
add_sample-max t s = (ground arith, ground arith)

add_all-max :
    (ts : List ℕ) (s : Statistics)
    → (s.max ≤ (add_all ts s).max) × All (λ t. t ≤ (add_all ts s).max) ts
unfolding add_all
add_all-max [] s = (omega arith, tt)
add_all-max (t ∷ ts) s =
    let (here, new) = add_sample-max t s in
    let (rest, all) = add_all-max ts (add_sample t s) in (omega arith, (omega arith, all))

add_sample-min :
    (t : ℕ) (s : Statistics) → ((add_sample t s).min ≤ s.min) × ((add_sample t s).min ≤ t)
unfolding add_sample
add_sample-min t s = (ground arith, ground arith)

add_all-min :
    (ts : List ℕ) (s : Statistics)
    → ((add_all ts s).min ≤ s.min) × All (λ t. (add_all ts s).min ≤ t) ts
unfolding add_all
add_all-min [] s = (omega arith, tt)
add_all-min (t ∷ ts) s =
    let (here, new) = add_sample-min t s in
    let (rest, all) = add_all-min ts (add_sample t s) in (omega arith, (omega arith, all))

add_sample-max_either :
    (t : ℕ) (s : Statistics) → ((add_sample t s).max ≡ s.max) ⊎ ((add_sample t s).max ≡ t)
unfolding add_sample
add_sample-max_either t s = elim (Bool-cases (ltb s.max t)) [
  | inl e ↦ rw e (inr refl)
  | inr e ↦ rw e (inl refl)
]

add_all-max-Among :
    (ts : List ℕ) (s : Statistics) → ((add_all ts s).max ≡ s.max) ⊎ Among (add_all ts s).max ts
unfolding add_all
add_all-max-Among [] s = inl refl
add_all-max-Among (t ∷ ts) s = elim (add_all-max-Among ts (add_sample t s)) [
  | inr later ↦ inr (inr later)
  | inl here ↦ elim (add_sample-max_either t s) [
    | inl old ↦ inl (here ∙ old)
    | inr new ↦ inr (inl (here ∙ new))
  ]
]

add_sample-min_either :
    (t : ℕ) (s : Statistics) → ((add_sample t s).min ≡ s.min) ⊎ ((add_sample t s).min ≡ t)
unfolding add_sample
add_sample-min_either t s = elim (Bool-cases (ltb t s.min)) [
  | inl e ↦ rw e (inr refl)
  | inr e ↦ rw e (inl refl)
]

add_all-min-Among :
    (ts : List ℕ) (s : Statistics) → ((add_all ts s).min ≡ s.min) ⊎ Among (add_all ts s).min ts
unfolding add_all
add_all-min-Among [] s = inl refl
add_all-min-Among (t ∷ ts) s = elim (add_all-min-Among ts (add_sample t s)) [
  | inr later ↦ inr (inr later)
  | inl here ↦ elim (add_sample-min_either t s) [
    | inl old ↦ inl (here ∙ old)
    | inr new ↦ inr (inl (here ∙ new))
  ]
]

add_all-total :
    (ts : List ℕ) (s : Statistics)
    → 0 < s.max
    → s.total_micro_sec < 2 ^ 32
    → (add_all ts s).total_micro_sec ≡ (s.total_micro_sec + sum ts) % 2 ^ 32
unfolding add_all add_sample
add_all-total [] s h small = omega arith
add_all-total (t ∷ ts) s h small =
    let new = add_sample-max t s in
    let here : (add_sample t s).total_micro_sec ≡ (s.total_micro_sec + t) % 2 ^ 32 = ground arith in
    let rest = add_all-total ts (add_sample t s) (omega arith) (omega arith) in omega arith

add_all-total_zero :
    (ts : List ℕ) (s : Statistics)
    → s.max ≡ 0
    → s.total_micro_sec < 2 ^ 32
    → (add_all ts s).total_micro_sec ≡ (s.total_micro_sec + sum (counted ts)) % 2 ^ 32
unfolding add_all add_sample
add_all-total_zero [] s h small = omega arith
add_all-total_zero (zero ∷ ts) s h small =
    let still : (add_sample 0 s).max ≡ 0 = ground arith in
    let same : (add_sample 0 s).total_micro_sec ≡ s.total_micro_sec = ground arith in
    let rest = add_all-total_zero ts (add_sample 0 s) still (omega arith) in omega arith
add_all-total_zero (suc t ∷ ts) s h small =
    let new : 0 < (add_sample (suc t) s).max = ground arith in
    let same : (add_sample (suc t) s).total_micro_sec ≡ s.total_micro_sec = ground arith in
    let rest = add_all-total ts (add_sample (suc t) s) new (omega arith) in omega arith

-- `max` and `min` are the greatest and the least of the times, where 0 and 999999 take part as well.
-- The total leaves out the times up to the first that is not 0, and wraps at 32 bits.
abbrev pub Measures : List ℕ → Statistics → Type 0
Measures ts s =
    All (λ t. t ≤ s.max) ts
    × ((s.max ≡ 0) ⊎ Among s.max ts)
    × All (λ t. s.min ≤ t) ts
    × ((s.min ≡ 999999) ⊎ Among s.min ts)
    × (s.total_micro_sec ≡ sum (counted ts) % 2 ^ 32)

pub add_all-Measures : (ts : List ℕ) → Measures ts (add_all ts at_start)
add_all-Measures ts =
    let total = add_all-total_zero ts at_start refl (omega arith) in
    (
      (add_all-max ts at_start).1,
      add_all-max-Among ts at_start,
      (add_all-min ts at_start).1,
      add_all-min-Among ts at_start,
      omega arith,
    )
