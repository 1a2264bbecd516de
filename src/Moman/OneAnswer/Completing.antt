-- ===== src/Moman/OneAnswer/Completing.antt =====
-- What the two calls of a completion's halves change.
use kekmonitors_cpp.Prelude.{
  ℕ, zero, suc, ◌+◌, ◌≤◌, ◌<◌, ◌≡◌, true, false, ◌==◌, some, List, [], ◌∷◌, length, get_elem?, set,
  arith,
}
use kekmonitors_cpp.Moman.State.{Completion}
use kekmonitors_cpp.Moman.OneAnswer.Count.{as_number, opens, AreHalved, opens-le, AreHalved-le}

module _ {Json : Type 0} (h h' : ℕ → ℕ) where
  -- With as many halves there is as much to come.
  pub opens-same :
      (c i : ℕ) (ks : List (Completion Json))
      → ((j : ℕ) → i ≤ j → j < i + length ks → h' j ≡ h j)
      → opens c h' i ks ≡ opens c h i ks
  opens-same c i ks same = omega (
    arith,
    opens-le c h h' i ks (λ j p q. omega (arith, same j p q)),
    opens-le c h' h i ks (λ j p q. omega (arith, same j p q)),
  )

  -- The first call of a half sets the flag: the completion stays as open as it was.
  pub opens-set :
      (c i : ℕ) (ks : List (Completion Json)) (j : ℕ) (k new : Completion Json)
      → get_elem? ks j ≡ some k
      → k.both_completed ≡ false
      → new.both_completed ≡ true
      → new.connection ≡ k.connection
      → ((l : ℕ) → h l ≡ as_number (i + j == l) + h' l)
      → opens c h' i (set ks j new) ≡ opens c h i ks
  opens-set c i [] j k new e f t n one = omega arith
  opens-set c i (x ∷ ks) zero k new e f t n one =
      let at : i + 0 ≡ i = omega arith in
      let rest : opens c h' (suc i) ks ≡ opens c h (suc i) ks =
        opens-same c (suc i) ks (λ l p q. ground (arith, one l, at, p)) in
      ground (arith, rest, one i, at)
  opens-set c i (x ∷ ks) (suc j) k new e f t n one =
      let at : i + suc j ≡ suc i + j = omega arith in
      let one' : (l : ℕ) → h l ≡ as_number (suc i + j == l) + h' l = λ l. rw at at (one l) in
      ground (arith, one i, opens-set c (suc i) ks j k new e f t n one')

  pub AreHalved-set :
      (i : ℕ) (ks : List (Completion Json)) (j : ℕ) (k new : Completion Json)
      → get_elem? ks j ≡ some k
      → k.both_completed ≡ false
      → ((l : ℕ) → h l ≡ as_number (i + j == l) + h' l)
      → AreHalved h i ks
      → AreHalved h' i (set ks j new)
  AreHalved-set i [] j k new e f one a = tt
  AreHalved-set i (x ∷ ks) zero k new e f one a =
      let at : i + 0 ≡ i = omega arith in
      (
        ground (arith, a, one i, at),
        AreHalved-le h h' (suc i) ks (λ l _ _. omega (arith, one l)) a.1,
      )
  AreHalved-set i (x ∷ ks) (suc j) k new e f one a =
      let at : i + suc j ≡ suc i + j = omega arith in
      let one' : (l : ℕ) → h l ≡ as_number (suc i + j == l) + h' l = λ l. rw at at (one l) in
      (omega (arith, a.0, one i), AreHalved-set (suc i) ks j k new e f one' a.1)

  -- The second call closes the completion.
  pub opens-close :
      (c i : ℕ) (ks : List (Completion Json)) (j : ℕ) (k : Completion Json)
      → get_elem? ks j ≡ some k
      → k.both_completed ≡ true
      → ((l : ℕ) → h l ≡ as_number (i + j == l) + h' l)
      → AreHalved h i ks
      → as_number (k.connection == c) + opens c h' i ks ≡ opens c h i ks
  opens-close c i [] j k e t one a = absurd (ground arith)
  opens-close c i (x ∷ ks) zero k e t one a =
      let at : i + 0 ≡ i = omega arith in
      let rest : opens c h' (suc i) ks ≡ opens c h (suc i) ks =
        opens-same c (suc i) ks (λ l p q. ground (arith, one l, at, p)) in
      ground (arith, a, rest, one i, at)
  opens-close c i (x ∷ ks) (suc j) k e t one a =
      let at : i + suc j ≡ suc i + j = omega arith in
      let one' : (l : ℕ) → h l ≡ as_number (suc i + j == l) + h' l = λ l. rw at at (one l) in
      ground (arith, one i, opens-close c (suc i) ks j k e t one' a.1)
