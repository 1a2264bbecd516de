-- ===== src/Tests/Lost.antt =====
-- A client that is not answered: its monitor exits and another client adds it again.
use kekmonitors_cpp.Prelude.{
  ◌≡◌, arith, inr, subst, refl, true, some, [], ◌∷◌, find, emplace, erase, assign,
}
use kekmonitors_cpp.Prelude.Outcome.{done}
use kekmonitors_cpp.Core.Codes.{success, operation_aborted, is_error, command_type, monitor}
use kekmonitors_cpp.Server.{start_accepting, on_connect, handle_callback, recover, callback_at}
use kekmonitors_cpp.Moman.State.{new_stored_object, add_wait, direct, System}
use kekmonitors_cpp.Moman.Add.{
  on_add, add_named, add_registered, started, store_process, stored_refusal, on_add_timer,
  add_cancelled,
}
use kekmonitors_cpp.Moman.Processes.{on_process_exit, remove_stored_process}
use kekmonitors_cpp.Moman.Start.{init}
use kekmonitors_cpp.Moman.Loop.{
  Ending, MayEnd, MayHappen, accepts, receives, ends, exits, callback_map, receive, resume, handle,
  step, Reach, here, next,
}
use kekmonitors_cpp.Moman.OneAnswer.Count.{answers}
use kekmonitors_cpp.Moman.OneAnswer.Unanswered.{never_answered}
use kekmonitors_cpp.Moman.OneAnswer.Lost.{without_addition, cancelled-stored}
use kekmonitors_cpp.Tests.SampleStart.{sample_start}
use kekmonitors_cpp.Tests.SampleAdded.{
  no_errors, adding_world, add_shop, added_object, added_system, Reach-init-added,
}
use kekmonitors_cpp.Tests.SampleJson.{SampleJson, null, sample_json}
use kekmonitors_cpp.Tests.SampleBimap.{sample_bimap}

abbrev added_again : System SampleJson
added_again = record added_system {
  monitors = ("shop", record added_object { on_add_timer = some 1 }) ∷ [];
  pending = add_wait 1 monitor "shop" (direct 1) ∷ add_wait 0 monitor "shop" (direct 0) ∷ [];
  next_timer = 2;
  server = record { is_open = true; accepting = some 2; reading = []; next_connection = 3 };
}

Reach-init-again : Reach no_errors (init sample_start) added_again
unfolding handle on_connect start_accepting is_error receive handle_callback callback_map
    callback_at recover on_add add_named add_registered started store_process stored_refusal
    new_stored_object find emplace erase command_type on_process_exit remove_stored_process
Reach-init-again =
    next
      (next (next Reach-init-added (step adding_world (exits success monitor "shop") tt refl))
        (step adding_world (accepts success) tt refl))
      (step adding_world (receives 0 success add_shop) tt refl)

abbrev cancelled : Ending SampleJson
cancelled = record {
  error = operation_aborted;
  message = "";
  response = record { error = 0; info = ""; payload = null };
}

abbrev lost_system : System SampleJson
lost_system =
    without_addition 1 monitor "shop" (record added_object { on_add_timer = some 1 }) added_again

-- The first timer was destroyed with the object that owned it.
may_cancel : MayHappen added_again (ends 1 cancelled)
may_cancel p q =
    let same : add_wait 0 monitor "shop" (direct 0) ≡ p = ground (arith, q) in
    subst (λ p. MayEnd added_again p operation_aborted) same (inr (refl, refl))

cancelled-stored_example :
    (handle no_errors adding_world (ends 1 cancelled) added_again ≡ done lost_system)
    × (answers 0 lost_system.replies ≡ 0)
unfolding find
cancelled-stored_example =
    cancelled-stored no_errors sample_start Reach-init-again adding_world 1 0 monitor "shop" 0
      cancelled (record added_object { on_add_timer = some 1 }) may_cancel refl refl refl here

Reach-init-lost : Reach no_errors (init sample_start) lost_system
unfolding handle resume on_add_timer add_cancelled is_error find assign
Reach-init-lost = next Reach-init-again (step adding_world (ends 1 cancelled) may_cancel refl)

never_answered_example : answers 0 lost_system.replies ≡ 0
never_answered_example =
    never_answered no_errors sample_start Reach-init-lost here 0 (omega arith) refl
