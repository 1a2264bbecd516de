-- ===== src/Moman/Invariant/Frames.antt =====
-- What a socket keeps: all that a change of the stored objects and a retried connection keep.
use kekmonitors_cpp.Prelude.{ℕ, String, Bool, some, Map, find, assign, ◌==◌}
use kekmonitors_cpp.Core.Codes.{MonitorOrScraper}
use kekmonitors_cpp.Moman.State.{
  StoredObject, OnSuccess, confirm, register, System, stored, set_stored,
}
use kekmonitors_cpp.Moman.Processes.{remove_stored_socket}
use kekmonitors_cpp.Moman.Sockets.{
  in_create, in_delete, parse_socket_name, socket_name_of, update_list,
  check_socket_and_update_list, verify_socket_is_communicating,
}
use kekmonitors_cpp.Moman.Invariant.Answers.{Option-rule, if-rule}

module _ {Json : Type 0} (P : System Json → Type 0)
    (objects : (m : MonitorOrScraper) (map : Map StoredObject) (s : System Json)
      → P s
      → P (set_stored m map s))
    (verify : (m : MonitorOrScraper) (path k : String) (next : OnSuccess) (connects : String → Bool)
        (s : System Json)
      → P s
      → P (verify_socket_is_communicating m path k next connects s)) where
  keeps-update_list :
      (m : MonitorOrScraper) (path k : String) (mask : ℕ) (connects : String → Bool)
      (s : System Json)
      → P s
      → P (update_list m path k mask connects s)
  unfolding update_list
  keeps-update_list m path k mask connects s h =
      if-rule P (mask == in_create) _ _
        (Option-rule P (find k (stored m s)) _ _ (verify m path k register connects s h) (λ obj _.
          let map = assign k (record obj { endpoint = some path }) (stored m s) in
          let found = objects m map s h in
          if-rule P obj.is_being_added _ _
            (verify m path k confirm connects (set_stored m map s) found) found))
        (if-rule P (mask == in_delete) _ _ (objects m (remove_stored_socket k (stored m s)) s h) h)

  pub keeps-check_socket_and_update_list :
      (path name : String) (mask : ℕ) (connects : String → Bool) (s : System Json)
      → P s
      → P (check_socket_and_update_list path name mask connects s)
  unfolding check_socket_and_update_list
  keeps-check_socket_and_update_list path name mask connects s h =
      Option-rule P (parse_socket_name (socket_name_of path name)) _ _ h
        (λ found _. keeps-update_list found.0 path found.1 mask connects s h)
