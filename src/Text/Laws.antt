-- ===== src/Text/Laws.antt =====
-- How `rfind`, `take` and `drop` split a text at its last separator.
use Prim.Native.Char.{Char, nul}
use Prim.Native.String.{[], ◌∷◌, ◌++◌, count}
use native.Mathlib.Numerals.{unary_clauses}
use text.Mathlib.TextEquality.{Char-path}
use text.Mathlib.TextLemmas.{nil-append, cons-append, length-cons, length-nil}
use kekmonitors_cpp.Prelude.{
  ap, ℕ, zero, suc, ◌≤◌, ◌-◌, String, ◌≡◌, refl, true, none, some, arith, Option-cases, inl, inr,
}
use kekmonitors_cpp.Text.{begins, rfind, drop, take, pad}

-- The last occurrence stays the last behind any text.
pub rfind-append : (t a u : String) → rfind t u ≡ some 0 → rfind t (a ++ u) ≡ some (count a)
unfolding rfind
rfind-append t [] u h = simp (nil-append, length-nil) h
rfind-append t (c ∷ a) u h =
    rw (cons-append c a u, length-cons c a) (ground (arith, rfind-append t a u h))

pub rfind-begins :
    (t : String) (c : Char) (u : String)
    → begins (c ∷ u) t ≡ true
    → rfind t u ≡ none
    → rfind t (c ∷ u) ≡ some 0
unfolding rfind
rfind-begins t c u b h = ground arith

pub drop-append : (a u : String) → drop (count a) (a ++ u) ≡ u
unfolding drop
drop-append [] u = nil-append u
drop-append (c ∷ a) u = rw (cons-append c a u, length-cons c a) (drop-append a u)

pub take-append : (a u : String) → take (count a) (a ++ u) ≡ a
unfolding take
take-append [] u = refl
take-append (c ∷ a) u = rw (cons-append c a u, length-cons c a) (ground (arith, take-append a u))

pub drop-suc : (n : ℕ) (s : String) → drop (suc n) s ≡ drop 1 (drop n s)
unfolding drop
drop-suc zero s = refl
drop-suc (suc n) [] = refl
drop-suc (suc n) (c ∷ s) = drop-suc n s

-- What stands nowhere in a text stands nowhere in its end.
pub rfind-drop-none :
    (t : String) (n : ℕ) (s : String) → rfind t s ≡ none → rfind t (drop n s) ≡ none
unfolding rfind drop
rfind-drop-none t zero s h = h
rfind-drop-none t (suc n) [] h = h
rfind-drop-none t (suc n) (c ∷ s) h = rfind-drop-none t n s (ground arith)

-- Behind the last occurrence there is no other.
pub rfind-drop_last :
    (c : Char) (t s : String) (i : ℕ)
    → rfind (c ∷ t) s ≡ some i
    → rfind (c ∷ t) (drop (suc i) s) ≡ none
unfolding rfind drop
rfind-drop_last c t [] i h = absurd (ground arith)
rfind-drop_last c t (d ∷ s) i h = elim (Option-cases (rfind (c ∷ t) s)) [
  | inl e ↦ rfind-drop-none (c ∷ t) i s e
  | inr (j, e) ↦ let last : i ≡ suc j = ground arith in rw last (rfind-drop_last c t s j e)
]

pub begins-append : (a u : String) → begins (a ++ u) a ≡ true
unfolding begins
begins-append [] u = refl
begins-append (c ∷ a) u = rw (cons-append c a u) (ground (arith, begins-append a u))

pub count-pad : (n : ℕ) → count (pad n) ≡ n
unfolding pad
count-pad zero = length-nil
count-pad (suc n) = rw (length-cons nul (pad n)) (ground (arith, count-pad n))

-- A prefix that is longer than the text is the text.
pub take-all : (n : ℕ) (s : String) → count s ≤ n → take n s ≡ s
unfolding take
take-all zero [] h = refl
take-all zero (c ∷ s) h = absurd (ground (arith, length-cons c s))
take-all (suc n) [] h = refl
take-all (suc n) (c ∷ s) h = ground (arith, length-cons c s, take-all n s)

pub drop-pad : (k n : ℕ) → drop k (pad n) ≡ pad (n - k)
unfolding drop pad
drop-pad zero n = simp unary_clauses refl
drop-pad (suc k) zero = let empty : 0 - suc k ≡ 0 = omega arith in rw empty refl
drop-pad (suc k) (suc n) = simp unary_clauses (drop-pad k n)

-- A text that begins with one character has that one as its first part.
pub take-begins : (s : String) (d : Char) → begins s (d ∷ []) ≡ true → take 1 s ≡ d ∷ []
unfolding begins take
take-begins [] d h = absurd (ground (arith, h))
take-begins (c ∷ s) d h = ap (λ x. x ∷ []) (Char-path c d (ground (arith, h)))
