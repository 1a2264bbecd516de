-- ===== src/Cli/Payload.antt =====
-- The options that src/bin/cli.cpp reads into the payload of the command.
use Prim.Native.String.{◌++◌}
use kekmonitors_cpp.Prelude.{
  String, ◌≡◌, refl, ◌↔◌, Bool, true, false, ◌&&◌, ◌||◌, Option, none, some, List, [], ◌∷◌, arith,
  str_eq, if◌then◌else◌, ◌∙◌, Bool-cases, inl, inr,
}
use kekmonitors_cpp.Text.{begins}
use kekmonitors_cpp.Text.Laws.{begins-append, drop-append}
use kekmonitors_cpp.Json.{JsonApi}
use kekmonitors_cpp.Cli.{read_options}

-- The arguments that stand for options.
abbrev pub option_args : List (String × String) → List String
option_args [] = []
option_args ((key, value) ∷ options) = ("--" ++ key) ∷ value ∷ option_args options

-- The value of the last option with the key.
abbrev pub last_value : List (String × String) → String → Option String
last_value [] k = none
last_value ((key, value) ∷ options) k = elim (last_value options k) [
  | none ↦ if str_eq key k then some value else none
  | some last ↦ some last
]

-- Whether every other argument, from the first on, starts with "--".
abbrev pub has_keys : List String → Bool
has_keys (key ∷ value ∷ args) = begins key "--" && has_keys args
has_keys args = true

module _ {Json : Type 0} ⦃J : JsonApi Json⦄ where
  abbrev pub or_at : Option String → Option Json → Option Json
  or_at none old = old
  or_at (some value) old = some (J.of_string value)

  or_at_put :
      (payload : Json) (key value : String) (options : List (String × String)) (k : String)
      → (J.is_null payload || J.is_object payload) ≡ true
      → or_at (last_value options k) (J.at (J.put payload key (J.of_string value)) k)
        ≡ or_at (last_value ((key, value) ∷ options) k) (J.at payload k)
  or_at_put payload key value options k h =
      ground (arith, J.at-put payload key (J.of_string value) k h)

  -- The options are put one after the other.
  pub read_options_lem :
      (options : List (String × String)) (payload : Json)
      → (J.is_null payload || J.is_object payload) ≡ true
      → (p : Json) × (read_options (option_args options) payload ≡ some p)
        × ((k : String) → J.at p k ≡ or_at (last_value options k) (J.at payload k))
  unfolding read_options
  read_options_lem [] payload h = (payload, refl, λ k. refl)
  read_options_lem ((key, value) ∷ options) payload h =
      let next = J.put payload key (J.of_string value) in
      let (p, e, at) =
        read_options_lem options next
          (ground (arith, J.is_object-put payload key (J.of_string value) h)) in
      (
        p,
        rw (begins-append "--" key) (rw (drop-append "--" key) e),
        λ k. at k ∙ or_at_put payload key value options k h,
      )

  pub read_options-has_keys :
      (args : List String) (payload : Json)
      → has_keys args ≡ false ↔ (read_options args payload ≡ none)
  unfolding read_options
  read_options-has_keys [] payload = ground arith
  read_options-has_keys (key ∷ []) payload = ground arith
  read_options-has_keys (key ∷ value ∷ args) payload = elim (Bool-cases (begins key "--")) [
    | inl e ↦ rw e (read_options-has_keys args _)
    | inr e ↦ rw e ((λ h. refl), (λ h. refl))
  ]
