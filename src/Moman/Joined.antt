-- ===== src/Moman/Joined.antt =====
-- The two halves of a joint command.
use kekmonitors_cpp.Prelude.{
  ℕ, zero, suc, ◌≡◌, refl, true, false, some, List, [], ◌∷◌, arith, get_elem?, set,
}
use kekmonitors_cpp.Prelude.Outcome.{returns, raises, done, throws}
use kekmonitors_cpp.Core.Bimap.{BimapApi}
use kekmonitors_cpp.Json.{JsonApi}
use kekmonitors_cpp.Msg.Response.{Response}
use kekmonitors_cpp.Moman.State.{half, Completion, System}
use kekmonitors_cpp.Moman.Reply.{
  write_response, joint_response, complete, check_for_completion, call_back,
}

get_elem?-set_self {ℓ} :
    {A : Type ℓ} (l : List A) (i : ℕ) (old new : A)
    → get_elem? l i ≡ some old
    → get_elem? (set l i new) i ≡ some new
get_elem?-set_self [] i old new h = absurd (ground arith)
get_elem?-set_self (x ∷ l) zero old new h = refl
get_elem?-set_self (x ∷ l) (suc i) old new h = get_elem?-set_self l i old new h

module _ {Json : Type 0} where
  -- The state after the first half's response.
  abbrev pub after_first : ℕ → Completion Json → Response Json → System Json → System Json
  after_first id c r s = record s {
    completions = set s.completions id (record c { both_completed = true; first_response = r });
  }

module _ {Json M : Type 0} ⦃J : JsonApi Json⦄ ⦃b : BimapApi M⦄ (errors : M) where
  -- Of the two responses to a fresh completion the first one is kept, and nothing is answered; the
  -- second one, which may come in any later state that still has the completion as it is, makes the
  -- one answer to the client, with the first response in the first place, or the exception of
  -- `makeCommonResponse` leaves the handler.
  pub call_back_twice :
      (id : ℕ) (c : Completion Json) (first second : Response Json) (s t : System Json)
      → get_elem? s.completions id ≡ some c
      → c.both_completed ≡ false
      → get_elem? t.completions id ≡ get_elem? (after_first id c first s).completions id
      → (call_back errors (half id) first s ≡ done (after_first id c first s))
        × (call_back errors (half id) second t ≡ elim (joint_response errors c.joint first second) [
          | raises e ↦ throws e t
          | returns r ↦ done (write_response c.connection r t)
        ])
  unfolding call_back check_for_completion complete
  call_back_twice id c first second s t at fresh same = ground (
    arith,
    get_elem?-set_self s.completions id c
        (record c { both_completed = true; first_response = first }) at,
  )
