-- ===== src/Weather/Texts/Updates.antt =====
-- The writes of generateString, one at a time.
use zeromq_agent.Base.{
  ℕ, zero, suc, ◌≤◌, ◌<◌, ◌≡◌, ◌≢◌, refl, none, some, [], ◌∷◌, get_elem?, length, replicate,
  length-replicate, arith,
}
use zeromq_agent.Memory.{Bytes}
use zeromq_agent.Weather.Texts.{update, set_at}

pub length-update : (i a : ℕ) (mem : Bytes) → length (update i a mem) ≡ length mem
length-update i a [] = refl
length-update zero a (x ∷ mem) = refl
length-update (suc i) a (x ∷ mem) = rw (length-update i a mem) refl

pub get-update : (i a : ℕ) (mem : Bytes) → i < length mem → get_elem? (update i a mem) i ≡ some a
get-update i a [] h = absurd (omega arith)
get-update zero a (x ∷ mem) h = refl
get-update (suc i) a (x ∷ mem) h = get-update i a mem (omega arith)

pub get-update_ne :
    (i a : ℕ) (mem : Bytes) (k : ℕ) → k ≢ i → get_elem? (update i a mem) k ≡ get_elem? mem k
get-update_ne i a [] k ne = refl
get-update_ne zero a (x ∷ mem) zero ne = absurd (ne refl)
get-update_ne zero a (x ∷ mem) (suc k) ne = refl
get-update_ne (suc i) a (x ∷ mem) zero ne = refl
get-update_ne (suc i) a (x ∷ mem) (suc k) ne = get-update_ne i a mem k (omega arith)

pub get-below : (xs : Bytes) (k : ℕ) → k < length xs → (a : ℕ) × (get_elem? xs k ≡ some a)
get-below [] k h = absurd (omega arith)
get-below (x ∷ xs) zero h = (x, refl)
get-below (x ∷ xs) (suc k) h = get-below xs k (omega arith)

pub length-zeros : (room : ℕ) → length (replicate {A = ℕ} room 0) ≡ room
length-zeros room = length-replicate room 0

pub get-replicate : (n a k : ℕ) → k < n → get_elem? (replicate n a) k ≡ some a
get-replicate zero a k h = absurd (omega arith)
get-replicate (suc n) a zero h = refl
get-replicate (suc n) a (suc k) h = get-replicate n a k (omega arith)

pub set_at-update :
    (i a : ℕ) (mem : Bytes) → i < length mem → set_at i a mem ≡ some (update i a mem)
unfolding set_at
set_at-update i a mem h = ground arith

pub set_at-none : (i a : ℕ) (mem : Bytes) → length mem ≤ i → set_at i a mem ≡ none
unfolding set_at
set_at-none i a mem h = ground arith
