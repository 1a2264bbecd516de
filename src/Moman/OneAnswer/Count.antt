-- ===== src/Moman/OneAnswer/Count.antt =====
-- How often a connection can still be answered: the callbacks that the pending operations hold.
use kekmonitors_cpp.Prelude.{
  ℕ, zero, suc, ◌+◌, ◌≤◌, ◌<◌, ◌≡◌, refl, Bool, ◌&&◌, ◌==◌, leb, Option, none, some, List, [], ◌∷◌,
  ◌++◌, length, get_elem?, remove_at, arith, if◌then◌else◌,
}
use kekmonitors_cpp.Moman.State.{
  Callback, direct, half, Completion, Pending, posted, add_wait, stop_write, stop_read, verify_wait,
  verify_write, verify_read,
}

abbrev pub as_number : Bool → ℕ
as_number b = if b then 1 else 0

-- The callback that an operation's handler answers with.
abbrev pub held : Pending → Option Callback
held (posted m id) = some (half id)
held (add_wait n m k cb) = some cb
held (stop_write m k cb ep command) = some cb
held (stop_read cb) = some cb
held (verify_wait n m path k next) = none
held (verify_write m path k next) = none
held (verify_read m path k next) = none

-- How often the callback answers the connection by itself, and completes the completion.
abbrev pub direct_to : ℕ → Option Callback → ℕ
direct_to c (some (direct d)) = as_number (d == c)
direct_to c (some (half i)) = 0
direct_to c none = 0

abbrev pub half_of : ℕ → Option Callback → ℕ
half_of i (some (half j)) = as_number (j == i)
half_of i (some (direct d)) = 0
half_of i none = 0

abbrev pub directs : ℕ → List Pending → ℕ
directs c [] = 0
directs c (p ∷ l) = direct_to c (held p) + directs c l

abbrev pub halves : ℕ → List Pending → ℕ
halves i [] = 0
halves i (p ∷ l) = half_of i (held p) + halves i l

abbrev pub occurrences : ℕ → List ℕ → ℕ
occurrences c [] = 0
occurrences c (d ∷ l) = as_number (d == c) + occurrences c l

abbrev pub waits : ℕ → Option ℕ → ℕ
waits c none = 0
waits c (some d) = as_number (d == c)

-- How often the connection was answered.
abbrev pub answers {ℓ} : {A : Type ℓ} → ℕ → List (ℕ × A) → ℕ
answers c [] = 0
answers c ((d, r) ∷ l) = as_number (d == c) + answers c l

pub directs-remove_at :
    (c : ℕ) (l : List Pending) (n : ℕ) (p : Pending)
    → get_elem? l n ≡ some p
    → direct_to c (held p) + directs c (remove_at l n) ≡ directs c l
directs-remove_at c [] n p e = absurd (ground arith)
directs-remove_at c (q ∷ l) zero p e = let same : q ≡ p = ground arith in rw same refl
directs-remove_at c (q ∷ l) (suc n) p e = omega (arith, directs-remove_at c l n p e)

pub halves-remove_at :
    (i : ℕ) (l : List Pending) (n : ℕ) (p : Pending)
    → get_elem? l n ≡ some p
    → half_of i (held p) + halves i (remove_at l n) ≡ halves i l
halves-remove_at i [] n p e = absurd (ground arith)
halves-remove_at i (q ∷ l) zero p e = let same : q ≡ p = ground arith in rw same refl
halves-remove_at i (q ∷ l) (suc n) p e = omega (arith, halves-remove_at i l n p e)

pub occurrences-remove_at :
    (c : ℕ) (l : List ℕ) (n d : ℕ)
    → get_elem? l n ≡ some d
    → as_number (d == c) + occurrences c (remove_at l n) ≡ occurrences c l
occurrences-remove_at c [] n d e = absurd (ground arith)
occurrences-remove_at c (q ∷ l) zero d e = let same : q ≡ d = ground arith in rw same refl
occurrences-remove_at c (q ∷ l) (suc n) d e = omega (arith, occurrences-remove_at c l n d e)

module _ {Json : Type 0} where
  -- A completion that can still answer: two calls of its halves are yet to come, or one is after the
  -- first one. `h` counts the halves that are held.
  abbrev pub is_open : (ℕ → ℕ) → ℕ → Completion Json → Bool
  is_open h i k = leb 2 (h i + as_number k.both_completed)

  -- How many completions of the connection can still answer, from the `i`-th on.
  abbrev pub opens : ℕ → (ℕ → ℕ) → ℕ → List (Completion Json) → ℕ
  opens c h i [] = 0
  opens c h i (k ∷ ks) = as_number ((k.connection == c) && is_open h i k) + opens c h (suc i) ks

  -- At most two calls of the halves were or will be made.
  abbrev pub AreHalved : (ℕ → ℕ) → ℕ → List (Completion Json) → Type 0
  AreHalved h i [] = Unit
  AreHalved h i (k ∷ ks) = (h i + as_number k.both_completed ≤ 2) × AreHalved h (suc i) ks

  -- With fewer halves there is less to come.
  pub opens-le :
      (c : ℕ) (h h' : ℕ → ℕ) (i : ℕ) (ks : List (Completion Json))
      → ((j : ℕ) → i ≤ j → j < i + length ks → h' j ≤ h j)
      → opens c h' i ks ≤ opens c h i ks
  opens-le c h h' i [] less = omega arith
  opens-le c h h' i (k ∷ ks) less = ground (
    arith,
    less i (omega arith) (omega arith),
    opens-le c h h' (suc i) ks (λ j p q. less j (omega arith) (omega arith)),
  )

  pub AreHalved-le :
      (h h' : ℕ → ℕ) (i : ℕ) (ks : List (Completion Json))
      → ((j : ℕ) → i ≤ j → j < i + length ks → h' j ≤ h j)
      → AreHalved h i ks
      → AreHalved h' i ks
  AreHalved-le h h' i [] less a = tt
  AreHalved-le h h' i (k ∷ ks) less a = (
    omega (arith, a.0, less i (omega arith) (omega arith)),
    AreHalved-le h h' (suc i) ks (λ j p q. less j (omega arith) (omega arith)) a.1,
  )

  -- A new completion at the end.
  pub opens-append :
      (c : ℕ) (h : ℕ → ℕ) (i : ℕ) (ks : List (Completion Json)) (k : Completion Json)
      → opens c h i (ks ++ k ∷ [])
        ≡ opens c h i ks + as_number ((k.connection == c) && is_open h (i + length ks) k)
  opens-append c h i [] k = let at : i + 0 ≡ i = omega arith in rw at (omega arith)
  opens-append c h i (x ∷ ks) k =
      let at : i + suc (length ks) ≡ suc i + length ks = omega arith in
      rw at (omega (arith, opens-append c h (suc i) ks k))

  pub AreHalved-append :
      (h : ℕ → ℕ) (i : ℕ) (ks : List (Completion Json)) (k : Completion Json)
      → AreHalved h i ks
      → h (i + length ks) + as_number k.both_completed ≤ 2
      → AreHalved h i (ks ++ k ∷ [])
  AreHalved-append h i [] k a b = (let at : i ≡ i + 0 = omega arith in rw at b, tt)
  AreHalved-append h i (x ∷ ks) k a b =
      let at : suc i + length ks ≡ i + suc (length ks) = omega arith in
      (a.0, AreHalved-append h (suc i) ks k a.1 (rw at b))
