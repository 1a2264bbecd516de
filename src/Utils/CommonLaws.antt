-- ===== src/Utils/CommonLaws.antt =====
-- What `makeCommonResponse` makes of two responses.
use kekmonitors_cpp.Prelude.{ℕ, ◌<◌, ◌≤◌, String, ◌≡◌, ◌≢◌, ◌↔◌, ◌⊎◌, inl, inr, arith}
use kekmonitors_cpp.Prelude.Outcome.{Try-cases, returns, raises, out_of_range}
use kekmonitors_cpp.Core.Bimap.{BimapApi}
use kekmonitors_cpp.Core.Codes.{Errors, error_type, ok, first_custom_error}
use kekmonitors_cpp.Core.Names.{init_maps, error_to_string}
use kekmonitors_cpp.Core.Registered.{string_to_error-error_to_string, error_to_string_custom}
use kekmonitors_cpp.Json.{JsonApi}
use kekmonitors_cpp.Msg.Response.{Response}
use kekmonitors_cpp.Utils.Common.{make_common_response}

-- An enumerator other than `OK` has a number other than 0.
error_type-ne-zero : (e : Errors) → e ≢ ok → error_type e ≢ 0
unfolding error_type
error_type-ne-zero e h = ground arith

module _ {Json M : Type 0} ⦃J : JsonApi Json⦄ ⦃b : BimapApi M⦄ where
  -- The common response has no error exactly if neither response has one, and else it has the common
  -- error; it never has a payload.
  pub make_common_response-error :
      (errors : M) (first second r : Response Json) (e : Errors)
      → e ≢ ok
      → make_common_response errors first second e ≡ returns r
      → ((r.error ≡ 0) ↔ ((first.error ≡ 0) × (second.error ≡ 0)))
        × ((r.error ≡ 0) ⊎ (r.error ≡ error_type e))
        × (r.payload ≡ J.null)
  unfolding make_common_response
  make_common_response-error errors first second r e ne h = ground (arith, error_type-ne-zero e ne)

first_custom_error-pos : 0 < first_custom_error
unfolding first_custom_error
first_custom_error-pos = omega arith

named :
    (M : Type 0) ⦃b : BimapApi M⦄ (err : ℕ)
    → err < first_custom_error
    → (name : String) × (error_to_string (init_maps {M = M}).1 err ≡ returns name)
named M err h = let (name, bare, to, from) = string_to_error-error_to_string M err h in (name, to)

module _ {Json : Type 0} (M : Type 0) ⦃J : JsonApi Json⦄ ⦃b : BimapApi M⦄ where
  -- With the table of `initMaps`, two responses whose error codes the library knows have a common
  -- response.
  pub make_common_response-total :
      (first second : Response Json) (e : Errors)
      → first.error < first_custom_error
      → second.error < first_custom_error
      → (r : Response Json) × (make_common_response (init_maps {M = M}).1 first second e
          ≡ returns r)
  unfolding make_common_response
  make_common_response-total first second e p q =
      let (n, en) = named M first.error p in
      let (k, ek) = named M second.error q in
      elim (Try-cases (make_common_response (init_maps {M = M}).1 first second e)) [
        | inl (x, h) ↦ absurd (ground (arith, en, ek, h))
        | inr found ↦ found
      ]

  -- With that table, a response whose error code the library does not know, as a monitor may have
  -- registered for itself, makes the call throw `std::out_of_range`.
  pub make_common_response-custom :
      (first second : Response Json) (e : Errors)
      → (first_custom_error ≤ first.error)
        ⊎ ((first.error < first_custom_error) × (first_custom_error ≤ second.error))
      → make_common_response (init_maps {M = M}).1 first second e ≡ raises out_of_range
  unfolding make_common_response
  make_common_response-custom first second e (inl h) =
      ground (arith, error_to_string_custom M first.error h, first_custom_error-pos)
  make_common_response-custom first second e (inr (p, q)) =
      let (n, en) = named M first.error p in
      ground (arith, en, error_to_string_custom M second.error q, first_custom_error-pos)
