-- ===== src/Tests/SampleJson.antt =====
-- JSON values without arrays, Booleans and fractions: an instance of the JSON interface.
use Prim.Native.Nat.{◌<◌}
use Prim.Native.String.{◌++◌}
use kekmonitors_cpp.Text.{begins, pad}
use kekmonitors_cpp.Text.Laws.{begins-append}
use kekmonitors_cpp.Prelude.{
  ℕ, ◌%◌, String, ◌≡◌, refl, Bool, true, false, ◌||◌, Option, none, some, List, [], ◌∷◌, arith,
  str_eq, eq_iff, if◌then◌else◌, is_some,
}
use kekmonitors_cpp.Core.Codes.{u32_mod}
use kekmonitors_cpp.Json.{JsonApi, JsonText}

mutual
  pub data SampleJson : Type 0 where
    null : SampleJson
    number : ℕ → SampleJson
    text : String → SampleJson
    object : Fields → SampleJson

  pub data Fields : Type 0 where
    end : Fields
    field : String → SampleJson → Fields → Fields

abbrev lookup : String → Fields → Option SampleJson
lookup k end = none
lookup k (field l v fs) = if str_eq l k then some v else lookup k fs

abbrev write : Fields → String → SampleJson → Fields
write end k v = field k v end
write (field l w fs) k v = if str_eq l k then field k v fs else field l w (write fs k v)

lookup-write :
    (fs : Fields) (k : String) (v : SampleJson) (l : String)
    → lookup l (write fs k v) ≡ (if str_eq k l then some v else lookup l fs)
lookup-write end k v l = ground (arith, eq_iff k l)
lookup-write (field i w fs) k v l =
    ground (arith, eq_iff k l, eq_iff i k, eq_iff i l, lookup-write fs k v l)

abbrev is_null : SampleJson → Bool
is_null null = true
is_null _ = false

abbrev is_object : SampleJson → Bool
is_object (object _) = true
is_object _ = false

abbrev at : SampleJson → String → Option SampleJson
at (object fs) k = lookup k fs
at _ k = none

abbrev put : SampleJson → String → SampleJson → SampleJson
put (object fs) k v = object (write fs k v)
put null k v = object (write end k v)
put j k v = j

abbrev as_u32 : SampleJson → Option ℕ
as_u32 (number n) = some (n % u32_mod)
as_u32 _ = none

abbrev as_string : SampleJson → Option String
as_string (text s) = some s
as_string _ = none

abbrev to_items : Fields → List (String × SampleJson)
to_items end = []
to_items (field k v fs) = (k, v) ∷ to_items fs

abbrev items : SampleJson → List (String × SampleJson)
items (object fs) = to_items fs
items _ = []

pub eq-null : (j : SampleJson) → is_null j ≡ true → j ≡ null
eq-null null h = refl
eq-null (number n) h = absurd (ground arith)
eq-null (text s) h = absurd (ground arith)
eq-null (object fs) h = absurd (ground arith)

pub is_object-put :
    (j : SampleJson) (k : String) (v : SampleJson)
    → (is_null j || is_object j) ≡ true
    → is_object (put j k v) ≡ true
is_object-put null k v h = refl
is_object-put (number n) k v h = absurd (ground arith)
is_object-put (text s) k v h = absurd (ground arith)
is_object-put (object fs) k v h = refl

pub at-put :
    (j : SampleJson) (k : String) (v : SampleJson) (l : String)
    → (is_null j || is_object j) ≡ true
    → at (put j k v) l ≡ (if str_eq k l then some v else at j l)
at-put null k v l h = lookup-write end k v l
at-put (number n) k v l h = absurd (ground arith)
at-put (text s) k v l h = absurd (ground arith)
at-put (object fs) k v l h = lookup-write fs k v l

pub as_u32-of_u32 : (n : ℕ) → n < u32_mod → as_u32 (number n) ≡ some n
as_u32-of_u32 n h = ground arith

pub as_u32-lt : (j : SampleJson) (n : ℕ) → as_u32 j ≡ some n → n < u32_mod
as_u32-lt null n h = absurd (ground arith)
as_u32-lt (number m) n h = ground arith
as_u32-lt (text s) n h = absurd (ground arith)
as_u32-lt (object fs) n h = absurd (ground arith)

instance abbrev pub sample_json : JsonApi SampleJson
sample_json = record {
  null = null;
  object = object end;
  is_null = is_null;
  is_object = is_object;
  at = at;
  contains = λ j k. is_some (at j k);
  put = put;
  of_u32 = number;
  as_u32 = as_u32;
  of_string = text;
  of_integer = number;
  as_string = as_string;
  items = items;
  is_null-null = refl;
  eq-null = eq-null;
  is_object-object = refl;
  at-null = λ k. refl;
  at-object = λ k. refl;
  is_object-put = is_object-put;
  at-put = at-put;
  contains-at = λ j k. refl;
  as_u32-of_u32 = as_u32-of_u32;
  as_u32-lt = as_u32-lt;
  as_string-of_string = λ s. refl;
}

-- Of the texts only one is modelled: that of a single command.
abbrev pub ping_json : SampleJson
ping_json = object (field "_Cmd__cmd" (number 1) end)

abbrev pub ping_text : String
ping_text = "{\"_Cmd__cmd\":1}"

abbrev parse : String → Option SampleJson
parse s = if begins s ping_text then some ping_json else none

pub parse-dump : (j : SampleJson) → j ≡ ping_json → parse ping_text ≡ some j
unfolding begins
parse-dump j h = rw h refl

pub parse-padded : (j : SampleJson) (n : ℕ) → j ≡ ping_json → parse (ping_text ++ pad n) ≡ some j
parse-padded j n h = rw h (rw (begins-append ping_text (pad n)) refl)

abbrev pub sample_text : JsonText SampleJson
sample_text = record {
  dump = λ j. ping_text;
  parse = parse;
  IsText = λ j. j ≡ ping_json;
  parse-dump = parse-dump;
  parse-padded = parse-padded;
}

-- The same for one response.
abbrev pub fail_json : SampleJson
fail_json = object (field "_Response__error" (number 3) end)

abbrev pub failure_text : String
failure_text = "{\"_Response__error\":3}"

abbrev parse_failure : String → Option SampleJson
parse_failure s = if begins s failure_text then some fail_json else none

pub parse_failure-dump : (j : SampleJson) → j ≡ fail_json → parse_failure failure_text ≡ some j
unfolding begins
parse_failure-dump j h = rw h refl

pub parse_failure-padded :
    (j : SampleJson) (n : ℕ) → j ≡ fail_json → parse_failure (failure_text ++ pad n) ≡ some j
parse_failure-padded j n h = rw h (rw (begins-append failure_text (pad n)) refl)

abbrev pub sample_error_text : JsonText SampleJson
sample_error_text = record {
  dump = λ j. failure_text;
  parse = parse_failure;
  IsText = λ j. j ≡ fail_json;
  parse-dump = parse_failure-dump;
  parse-padded = parse_failure-padded;
}
