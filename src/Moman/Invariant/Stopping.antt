-- ===== src/Moman/Invariant/Stopping.antt =====
-- `onStop` and its handlers, and the invariant.
use kekmonitors_cpp.Prelude.{String, Bool, true, find, arith}
use kekmonitors_cpp.Core.Bimap.{BimapApi}
use kekmonitors_cpp.Core.Codes.{command_type, stop, MonitorOrScraper, ErrorCode, is_error}
use kekmonitors_cpp.Json.{JsonApi}
use kekmonitors_cpp.Msg.Cmd.{Cmd, then_convert}
use kekmonitors_cpp.Moman.State.{Callback, stop_write, stop_read, System, stored}
use kekmonitors_cpp.Moman.Stop.{stop_named, on_stop, on_stop_written}
use kekmonitors_cpp.Moman.Invariant.Base.{
  Inv, Ensures, AreStored-stored, Inv-set_stored, Inv-assign, IsStored-find, Inv-start,
  AreStored-remove_stored_socket,
}
use kekmonitors_cpp.Moman.Invariant.Answers.{Option-rule, if-rule, Inv-call_back}

module _ {Json M : Type 0} ⦃J : JsonApi Json⦄ ⦃b : BimapApi M⦄ (errors : M) where
  Inv-stop_named :
      (m : MonitorOrScraper) (k : String) (cb : Callback) (connects : String → Bool)
      (s : System Json)
      → Inv s
      → Ensures Inv (stop_named errors m k cb connects s)
  unfolding stop_named
  Inv-stop_named m k cb connects s h =
      Option-rule (Ensures Inv) (find k (stored m s)) _ _ (Inv-call_back errors cb _ s h) (λ obj e.
        let old = IsStored-find m k obj s h e in
        Option-rule (Ensures Inv) obj.endpoint _ _ (Inv-call_back errors cb _ s h) (λ ep _.
          let marked =
            Inv-assign m k (record obj { is_being_stopped = true }) s h (ground (arith, old)) in
          if-rule (Ensures Inv) obj.is_being_stopped _ _ (Inv-call_back errors cb _ s h) (
            if-rule (Ensures Inv) (connects ep) _ _
              (Inv-start (stop_write m k cb ep (command_type stop)) _ marked tt) marked)))

  pub Inv-on_stop :
      (m : MonitorOrScraper) (cmd : Cmd Json) (cb : Callback) (connects : String → Bool)
      (s : System Json)
      → Inv s
      → Ensures Inv (on_stop errors m cmd cb connects s)
  unfolding on_stop
  Inv-on_stop m cmd cb connects s h =
      if-rule (Ensures Inv) (J.is_null cmd.payload) _ _ (Inv-call_back errors cb _ s h) (
        if-rule (Ensures Inv) (J.contains cmd.payload "name") _ _
          (Option-rule (Ensures Inv) (then_convert (J.at cmd.payload "name") J.as_string) _ _ h
            (λ k _. Inv-stop_named m k cb connects s h))
          (Inv-call_back errors cb _ s h))

  pub Inv-on_stop_written :
      (ec : ErrorCode) (message : String) (m : MonitorOrScraper) (k : String) (cb : Callback)
      (s : System Json)
      → Inv s
      → Ensures Inv (on_stop_written errors ec message m k cb s)
  unfolding on_stop_written
  Inv-on_stop_written ec message m k cb s h =
      let removed =
        Inv-set_stored m _ s h
          (AreStored-remove_stored_socket k (stored m s) (AreStored-stored m s h)) in
      if-rule (Ensures Inv) (is_error ec) _ _ (Inv-call_back errors cb _ _ removed)
        (Inv-start (stop_read cb) _ removed tt)
