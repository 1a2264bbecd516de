-- ===== src/Moman/OneAnswer/Sockets.antt =====
-- What sockets and exits of processes do to the count of answers.
use kekmonitors_cpp.Prelude.{
  String, Bool, true, not, ◌&&◌, none, some, List, [], ◌∷◌, ℕ, find, assign, emplace, str_eq,
}
use kekmonitors_cpp.Core.Codes.{MonitorOrScraper, ErrorCode, is_error}
use kekmonitors_cpp.Msg.Response.{Response}
use kekmonitors_cpp.Utils.Common.{failed}
use kekmonitors_cpp.Moman.State.{
  new_stored_object, OnSuccess, confirm, register, verify_wait, verify_write, verify_read, System,
  stored,
}
use kekmonitors_cpp.Moman.Processes.{on_process_exit, remove_stored_process}
use kekmonitors_cpp.Moman.Sockets.{
  in_create, check_socket_and_update_list, verify_socket_is_communicating, on_verify_timer,
  on_verify_written, on_verify_read, on_success,
}
use kekmonitors_cpp.Moman.Start.{DirectoryEntry, find_sockets}
use kekmonitors_cpp.Moman.Invariant.Base.{Ensures}
use kekmonitors_cpp.Moman.Invariant.Answers.{Option-rule, if-rule}
use kekmonitors_cpp.Moman.Invariant.Frames.{keeps-check_socket_and_update_list}
use kekmonitors_cpp.Moman.OneAnswer.Held.{Held, Held-start, Held-set_stored}

module _ {L B : ℕ → ℕ} {Json : Type 0} where
  Held-verify :
      (m : MonitorOrScraper) (path k : String) (next : OnSuccess) (connects : String → Bool)
      (s : System Json)
      → Held L B none s
      → Held L B none (verify_socket_is_communicating m path k next connects s)
  unfolding verify_socket_is_communicating
  Held-verify m path k next connects s n =
      if-rule (Held L B none) (connects path) _ _ n
        (Held-start (verify_wait s.next_timer m path k next) s n)

  pub Held-check_socket_and_update_list :
      (path name : String) (mask : ℕ) (connects : String → Bool) (s : System Json)
      → Held L B none s
      → Held L B none (check_socket_and_update_list path name mask connects s)
  Held-check_socket_and_update_list =
      keeps-check_socket_and_update_list (Held L B none)
        (λ m map s n. Held-set_stored none m map s n) Held-verify

  pub Held-on_process_exit :
      (ec : ErrorCode) (m : MonitorOrScraper) (k : String) (s : System Json)
      → Held L B none s
      → Held L B none (on_process_exit ec m k s)
  unfolding on_process_exit
  Held-on_process_exit ec m k s n =
      if-rule (Held L B none) (is_error ec) _ _ n
        (Held-set_stored none m (remove_stored_process k (stored m s)) s n)

  pub Held-on_verify_timer :
      (ec : ErrorCode) (m : MonitorOrScraper) (path k : String) (next : OnSuccess)
      (connects : String → Bool) (s : System Json)
      → Held L B none s
      → Held L B none (on_verify_timer ec m path k next connects s)
  unfolding on_verify_timer
  Held-on_verify_timer ec m path k next connects s n =
      if-rule (Held L B none) (is_error ec) _ _ n (
        if-rule (Held L B none) (connects path) _ _ (Held-start (verify_write m path k next) s n) n)

  pub Held-find_sockets :
      (files : List DirectoryEntry) (connects : String → Bool) (s : System Json)
      → Held L B none s
      → Held L B none (find_sockets files connects s)
  unfolding find_sockets
  Held-find_sockets [] connects s n = n
  Held-find_sockets (file ∷ files) connects s n = Held-find_sockets files connects _ (
      if-rule (Held L B none) (file.is_socket && not (str_eq file.filename "MonitorManager")) _ _
        (Held-check_socket_and_update_list file.path file.filename in_create connects s n) n)

  pub Held-on_verify_written :
      (ec : ErrorCode) (m : MonitorOrScraper) (path k : String) (next : OnSuccess) (s : System Json)
      → Held L B none s
      → Held L B none (on_verify_written ec m path k next s)
  unfolding on_verify_written
  Held-on_verify_written ec m path k next s n =
      if-rule (Held L B none) (is_error ec) _ _ n (Held-start (verify_read m path k next) s n)

  Held-on_success :
      (m : MonitorOrScraper) (path k : String) (next : OnSuccess) (s : System Json)
      → Held L B none s
      → Ensures (Held L B none) (on_success next m path k s)
  unfolding on_success
  Held-on_success m path k confirm s n =
      Option-rule (Ensures (Held L B none)) (find k (stored m s)) _ _ tt (λ obj _.
        Option-rule (Ensures (Held L B none)) obj.on_add_timer _ _ tt (λ t _.
          Held-set_stored none m (assign k (record obj { confirm_added = true }) (stored m s)) s n))
  Held-on_success m path k register s n =
      let obj = new_stored_object k in
      Held-set_stored none m (emplace k (record obj { endpoint = some path }) (stored m s)) s n

  pub Held-on_verify_read :
      (ec : ErrorCode) (resp : Response Json) (m : MonitorOrScraper) (path k : String)
      (next : OnSuccess) (s : System Json)
      → Held L B none s
      → Ensures (Held L B none) (on_verify_read ec resp m path k next s)
  unfolding on_verify_read
  Held-on_verify_read ec resp m path k next s n =
      if-rule (Ensures (Held L B none)) (is_error ec) _ _ n
        (if-rule (Ensures (Held L B none)) (failed resp) _ _ n (Held-on_success m path k next s n))
