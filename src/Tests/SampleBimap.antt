-- ===== src/Tests/SampleBimap.antt =====
-- A list of pairs as an instance of the bimap interface.
use kekmonitors_cpp.Prelude.{
  ℕ, String, ◌≡◌, refl, ◌||◌, Option, none, some, List, [], ◌∷◌, ◌==◌, str_eq, if◌then◌else◌, arith,
  is_some,
}
use kekmonitors_cpp.Core.Bimap.{BimapApi}

abbrev pub Pairs : Type 0
Pairs = List (ℕ × String)

abbrev left_at : Pairs → ℕ → Option String
left_at [] k = none
left_at ((j, w) ∷ m) k = if j == k then some w else left_at m k

abbrev right_at : Pairs → String → Option ℕ
right_at [] v = none
right_at ((j, w) ∷ m) v = if str_eq w v then some j else right_at m v

abbrev insert : ℕ → String → Pairs → Pairs
insert k v m = if is_some (left_at m k) || is_some (right_at m v) then m else (k, v) ∷ m

pub left_at-insert :
    (k : ℕ) (v : String) (m : Pairs) (j : ℕ)
    → left_at m k ≡ none
    → right_at m v ≡ none
    → left_at (insert k v m) j ≡ (if k == j then some v else left_at m j)
left_at-insert k v m j p q = ground arith

pub right_at-insert :
    (k : ℕ) (v : String) (m : Pairs) (w : String)
    → left_at m k ≡ none
    → right_at m v ≡ none
    → right_at (insert k v m) w ≡ (if str_eq v w then some k else right_at m w)
right_at-insert k v m w p q = ground arith

instance abbrev pub sample_bimap : BimapApi Pairs
sample_bimap = record {
  empty = [];
  insert = insert;
  left_at = left_at;
  right_at = right_at;
  left_at-empty = λ k. refl;
  right_at-empty = λ v. refl;
  left_at-insert = left_at-insert;
  right_at-insert = right_at-insert;
}
