-- ===== src/Cli/Exchange.antt =====
-- The response to a command of src/bin/cli.cpp, on its way back.
use kekmonitors_cpp.Prelude.{
  ◌<◌, ◌≤◌, String, ◌≢◌, ◌≡◌, ◌↔◌, refl, Bool, false, arith, inl, inr, leb, Bool-cases,
}
use kekmonitors_cpp.Prelude.Outcome.{returns, raises, out_of_range}
use kekmonitors_cpp.Core.Bimap.{BimapApi}
use kekmonitors_cpp.Core.Codes.{is_error, first_custom_error}
use kekmonitors_cpp.Core.Names.{init_maps, error_to_string}
use kekmonitors_cpp.Core.Registered.{string_to_error-error_to_string, error_to_string_custom}
use kekmonitors_cpp.Json.{JsonApi, JsonText}
use kekmonitors_cpp.Msg.Response.{Response}
use kekmonitors_cpp.Cli.{Ended, on_response, exchange}

module _ {Json : Type 0} ⦃J : JsonApi Json⦄ (T : JsonText Json) (M : Type 0) ⦃b : BimapApi M⦄ where
  on_response-raised :
      (is_empty : Json → Bool) (read : Ended) (resp : Response Json)
      → is_error read.error ≡ false
      → error_to_string (init_maps {M = M}).1 resp.error ≡ raises out_of_range
      → on_response T (init_maps {M = M}).1 is_empty read resp ≡ raises out_of_range
  unfolding on_response
  on_response-raised is_empty read resp h e = rw (on_response, h, e) refl

  on_response-returned :
      (is_empty : Json → Bool) (read : Ended) (text : String) (resp : Response Json)
      → is_error read.error ≡ false
      → error_to_string (init_maps {M = M}).1 resp.error ≡ returns text
      → on_response T (init_maps {M = M}).1 is_empty read resp ≢ raises out_of_range
  unfolding on_response
  on_response-returned is_empty read text resp h e p = absurd (ground (arith, h, e, p))

  on_response-raises :
      (is_empty : Json → Bool) (read : Ended) (resp : Response Json)
      → is_error read.error ≡ false
      → on_response T (init_maps {M = M}).1 is_empty read resp ≡ raises out_of_range
        ↔ (first_custom_error ≤ resp.error)
  on_response-raises is_empty read resp h = elim (Bool-cases (leb first_custom_error resp.error)) [
    | inl e ↦
        let custom : first_custom_error ≤ resp.error = ground (arith, e) in
        (
          (λ p. custom),
          (λ q.
              on_response-raised is_empty read resp h (error_to_string_custom M resp.error custom)),
        )
    | inr e ↦
        let known : resp.error < first_custom_error = ground (arith, e) in
        let (text, bare, at, back) = string_to_error-error_to_string M resp.error known in
        (
          (λ p. absurd (on_response-returned is_empty read text resp h at p)),
          (λ q. absurd (omega (arith, q, known))),
        )
  ]

  -- Where the client connects, writes its command and reads a response, its handlers throw
  -- `std::out_of_range` exactly if the response's error code is none of the library.
  pub exchange-raises :
      (is_empty : Json → Bool) (connected written read : Ended) (resp : Response Json)
      → is_error connected.error ≡ false
      → is_error written.error ≡ false
      → is_error read.error ≡ false
      → exchange T (init_maps {M = M}).1 is_empty connected written read resp ≡ raises out_of_range
        ↔ (first_custom_error ≤ resp.error)
  unfolding exchange
  exchange-raises is_empty connected written read resp c w h =
      rw (exchange, c, w) (on_response-raises is_empty read resp h)
