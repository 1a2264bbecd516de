-- ===== src/Json.antt =====
-- nlohmann::json, which the build fetches: the operations that the code uses, and what the library
-- documents of them. `put` stands for `j[key] = value`.
use Prim.Native.String.{◌++◌}
use kekmonitors_cpp.Text.{pad}
use kekmonitors_cpp.Prelude.{
  ℕ, ◌<◌, String, ◌≡◌, Bool, true, ◌||◌, Option, none, some, List, str_eq, if◌then◌else◌, is_some,
}
use kekmonitors_cpp.Core.Codes.{u32_mod}

pub record JsonApi (Json : Type 0) : Type 0 where
  -- `json()` and `json::object()`
  pub null : Json
  pub object : Json
  pub is_null : Json → Bool
  pub is_object : Json → Bool
  -- `at(key)`; `none` where it throws a `json::exception`
  pub at : Json → String → Option Json
  -- `find(key) != end()`
  pub contains : Json → String → Bool
  pub put : Json → String → Json → Json
  -- the conversions from and to `uint32_t` and `std::string`; `none` for a `json::exception`
  pub of_u32 : ℕ → Json
  pub as_u32 : Json → Option ℕ
  pub of_string : String → Json
  -- from a `time_t` or a `pid_t`, which are not negative here
  pub of_integer : ℕ → Json
  pub as_string : Json → Option String
  -- the keys and values from `cbegin()` to `cend()`
  pub items : Json → List (String × Json)
  pub is_null-null : is_null null ≡ true
  pub eq-null : (j : Json) → is_null j ≡ true → j ≡ null
  pub is_object-object : is_object object ≡ true
  pub at-null : (k : String) → at null k ≡ none
  pub at-object : (k : String) → at object k ≡ none
  pub is_object-put :
      (j : Json) (k : String) (v : Json)
      → (is_null j || is_object j) ≡ true
      → is_object (put j k v) ≡ true
  pub at-put :
      (j : Json) (k : String) (v : Json) (l : String)
      → (is_null j || is_object j) ≡ true
      → at (put j k v) l ≡ (if str_eq k l then some v else at j l)
  pub contains-at : (j : Json) (k : String) → contains j k ≡ is_some (at j k)
  pub as_u32-of_u32 : (n : ℕ) → n < u32_mod → as_u32 (of_u32 n) ≡ some n
  pub as_u32-lt : (j : Json) (n : ℕ) → as_u32 j ≡ some n → n < u32_mod
  pub as_string-of_string : (s : String) → as_string (of_string s) ≡ some s

-- `dump` and `parse`, with `none` where `parse` throws. `IsText` holds of the values that `dump`
-- writes down in full: their strings are UTF-8 and their numbers are finite.
pub record JsonText (Json : Type 0) : Type 1 where
  pub dump : Json → String
  pub parse : String → Option Json
  pub IsText : Json → Type 0
  pub parse-dump : (j : Json) → IsText j → parse (dump j) ≡ some j
  -- the parser takes a NUL character for the end of its input
  pub parse-padded : (j : Json) (n : ℕ) → IsText j → parse (dump j ++ pad n) ≡ some j
