-- ===== src/Text.antt =====
-- `std::string::rfind` and `std::string::substr`, over the characters of a text. The code splits
-- texts at ASCII separators only, where positions in characters and in bytes give the same parts.
use Prim.Native.Char.{Char, code, nul}
use Prim.Native.String.{[], ◌∷◌}
use kekmonitors_cpp.Prelude.{
  ℕ, zero, suc, String, Bool, true, false, ◌&&◌, Option, none, some, ◌==◌, if◌then◌else◌,
}
pub mod Laws

-- Whether the first text begins with the second.
unfoldable pub begins : String → String → Bool
begins s [] = true
begins [] (d ∷ t) = false
begins (c ∷ s) (d ∷ t) = (code c == code d) && begins s t

-- `s.rfind(t)`: the last position at which `t` stands in `s`.
unfoldable pub rfind : String → String → Option ℕ
unfolding begins
rfind t [] = if begins [] t then some 0 else none
rfind t (c ∷ s) = elim (rfind t s) [
  | some i ↦ some (suc i)
  | none ↦ if begins (c ∷ s) t then some 0 else none
]

-- `s.substr(i)`, for a position that is in range.
unfoldable pub drop : ℕ → String → String
drop zero s = s
drop (suc n) [] = []
drop (suc n) (c ∷ s) = drop n s

-- `s.substr(0, n)`.
unfoldable pub take : ℕ → String → String
take zero s = []
take (suc n) [] = []
take (suc n) (c ∷ s) = c ∷ take n s

-- `n` NUL characters.
unfoldable pub pad : ℕ → String
pad zero = []
pad (suc n) = nul ∷ pad n
