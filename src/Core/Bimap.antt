-- ===== src/Core/Bimap.antt =====
-- boost::bimap<uint32_t, std::string>, which the code fills once and then reads on both sides:
-- its operations, and what boost documents of them. Both sides are sets of keys.
use kekmonitors_cpp.Prelude.{ℕ, String, ◌≡◌, Option, none, some, ◌==◌, str_eq, if◌then◌else◌}

pub record BimapApi (M : Type 0) : Type 0 where
  pub empty : M
  -- `insert(value_type(k, v))`
  pub insert : ℕ → String → M → M
  -- `left.at(k)` and `right.at(v)`; `none` where they throw `std::out_of_range`
  pub left_at : M → ℕ → Option String
  pub right_at : M → String → Option ℕ
  pub left_at-empty : (k : ℕ) → left_at empty k ≡ none
  pub right_at-empty : (v : String) → right_at empty v ≡ none
  pub left_at-insert :
      (k : ℕ) (v : String) (m : M) (j : ℕ)
      → left_at m k ≡ none
      → right_at m v ≡ none
      → left_at (insert k v m) j ≡ (if k == j then some v else left_at m j)
  pub right_at-insert :
      (k : ℕ) (v : String) (m : M) (w : String)
      → left_at m k ≡ none
      → right_at m v ≡ none
      → right_at (insert k v m) w ≡ (if str_eq v w then some k else right_at m w)
