-- ===== src/Tests/Served.antt =====
-- A client that adds a monitor and is answered when the timer expires.
use kekmonitors_cpp.Prelude.{◌≡◌, refl, arith, subst, inl, false, [], ◌∷◌, find, assign}
use kekmonitors_cpp.Core.Codes.{success, is_error, error_type, monitor}
use kekmonitors_cpp.Msg.Response.{ok_response, new_response}
use kekmonitors_cpp.Moman.State.{add_wait, direct, System}
use kekmonitors_cpp.Moman.Reply.{call_back, write_response}
use kekmonitors_cpp.Moman.Add.{on_add_timer, add_expired}
use kekmonitors_cpp.Moman.Loop.{Ending, MayEnd, MayHappen, receives, ends, resume, handle}
use kekmonitors_cpp.Moman.OneAnswer.Count.{answers}
use kekmonitors_cpp.Moman.OneAnswer.Served.{Serves, idle, serve, served_once}
use kekmonitors_cpp.Tests.SampleStart.{sample_start}
use kekmonitors_cpp.Tests.SampleAdded.{
  no_errors, adding_world, add_shop, added_object, added_system, reading_system, handle-add_shop,
  Reach-init-reading,
}
use kekmonitors_cpp.Tests.SampleJson.{SampleJson, null, sample_json}
use kekmonitors_cpp.Tests.SampleBimap.{sample_bimap}

abbrev served_system : System SampleJson
served_system = record added_system {
  monitors = ("shop", record added_object { is_being_added = false }) ∷ [];
  pending = [];
  replies = (0, record { error = 0; info = ""; payload = null }) ∷ [];
}

abbrev expiry : Ending SampleJson
expiry = record {
  error = success;
  message = "";
  response = record { error = 0; info = ""; payload = null };
}

may_expire : MayHappen added_system (ends 0 expiry)
may_expire p q =
    let same : add_wait 0 monitor "shop" (direct 0) ≡ p = ground (arith, q) in
    subst (λ p. MayEnd added_system p success) same (inl refl)

Serves-shop : Serves no_errors reading_system served_system
unfolding handle resume on_add_timer add_expired call_back write_response ok_response new_response
    error_type is_error find assign
Serves-shop =
    serve (serve idle adding_world (receives 0 success add_shop) tt refl handle-add_shop)
      adding_world (ends 0 expiry) may_expire refl refl

served_once_example : answers 0 served_system.replies ≡ 1
served_once_example =
    served_once no_errors sample_start Reach-init-reading Serves-shop 0 refl refl refl refl
