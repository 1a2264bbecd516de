-- ===== src/Moman/Sockets.antt =====
-- The sockets of the monitored processes: `checkSocketAndUpdateList` and
-- `verifySocketIsCommunicating` of src/bin/moman/moman.cpp.
use kekmonitors_cpp.Prelude.{
  ℕ, suc, ◌+◌, String, Bool, true, Option, none, some, ◌∷◌, find, assign, emplace, ◌==◌, str_eq,
  if◌then◌else◌,
}
use kekmonitors_cpp.Prelude.Outcome.{Outcome, done, undefined}
use kekmonitors_cpp.Core.Codes.{MonitorOrScraper, monitor, scraper, ErrorCode, is_error}
use kekmonitors_cpp.Msg.Response.{Response}
use kekmonitors_cpp.Text.{rfind, drop, take}
use kekmonitors_cpp.Utils.Common.{failed}
use kekmonitors_cpp.Moman.State.{
  new_stored_object, OnSuccess, confirm, register, verify_wait, verify_write, verify_read, System,
  stored, set_stored, start,
}
use kekmonitors_cpp.Moman.Processes.{remove_stored_socket}

-- The masks of <sys/inotify.h>.
abbrev pub in_modify : ℕ
in_modify = 0x2

abbrev pub in_create : ℕ
in_create = 0x100

abbrev pub in_delete : ℕ
in_delete = 0x200

-- The name of a socket, from its path if it is not given.
unfoldable pub socket_name_of : String → String → String
unfolding rfind drop
socket_name_of path name =
    if str_eq name ""
    then (elim (rfind "/" path) [ none ↦ path | some i ↦ drop (i + 1) path ])
    else name

-- The part before the last dot says the kind, the part behind it is the class name.
unfoldable pub parse_socket_name : String → Option (MonitorOrScraper × String)
unfolding rfind take drop
parse_socket_name name = elim (rfind "." name) [
  | none ↦ none
  | some dot_index ↦
      let socket_prefix = take dot_index name in
      let class_name = drop (dot_index + 1) name in
      if str_eq socket_prefix "Monitor"
      then some (monitor, class_name)
      else if str_eq socket_prefix "Scraper"
      then some (scraper, class_name)
      else none
]

module _ {Json : Type 0} where
  -- The first `connect` of `verifySocketIsCommunicating`. Where it fails, a timer is started that is
  -- destroyed when the function returns; where it succeeds, nothing follows.
  unfoldable pub verify_socket_is_communicating :
      MonitorOrScraper → String → String → OnSuccess → (String → Bool) → System Json → System Json
  verify_socket_is_communicating m path class_name k connects s =
      if connects path
      then s
      else let waiting = start (verify_wait s.next_timer m path class_name k) s in
        record waiting { next_timer = suc s.next_timer }

  -- The handler of the timer; the last line is `on_connect()`.
  unfoldable pub on_verify_timer :
      ErrorCode
      → MonitorOrScraper
      → String
      → String
      → OnSuccess
      → (String → Bool)
      → System Json
      → System Json
  unfolding is_error
  on_verify_timer ec m path class_name k connects s =
      if is_error ec
      then s
      else if connects path
      then start (verify_write m path class_name k) s
      else s

  -- The handler of `asyncWriteCmd` in `quickWriteCmd`.
  unfoldable pub on_verify_written :
      ErrorCode → MonitorOrScraper → String → String → OnSuccess → System Json → System Json
  unfolding is_error
  on_verify_written ec m path class_name k s =
      if is_error ec then s else start (verify_read m path class_name k) s

  -- The two functions that are passed as `on_success`.
  unfoldable pub on_success :
      OnSuccess → MonitorOrScraper → String → String → System Json → Outcome (System Json)
  unfolding new_stored_object
  on_success confirm m path class_name s = elim (find class_name (stored m s)) [
    | none ↦ undefined
    | some obj ↦ elim obj.on_add_timer [
      | none ↦ undefined
      | some t ↦
          let confirmed =
            set_stored m (assign class_name (record obj { confirm_added = true }) (stored m s)) s in
          done (record confirmed { cancelled = t ∷ s.cancelled })
    ]
  ]
  on_success register m path class_name s =
      let obj = new_stored_object class_name in
      done (set_stored m (emplace class_name (record obj { endpoint = some path }) (stored m s)) s)

  -- The handler of `asyncReadResponse` in `quickWriteCmd`, with the two callbacks that it is given.
  unfoldable pub on_verify_read :
      ErrorCode
      → Response Json
      → MonitorOrScraper
      → String
      → String
      → OnSuccess
      → System Json
      → Outcome (System Json)
  unfolding is_error on_success
  on_verify_read ec resp m path class_name k s =
      if is_error ec
      then done s
      else if failed resp
      then done s
      else on_success k m path class_name s

  -- The `switch` of `checkSocketAndUpdateList`.
  unfoldable pub update_list :
      MonitorOrScraper → String → String → ℕ → (String → Bool) → System Json → System Json
  unfolding verify_socket_is_communicating remove_stored_socket
  update_list m path class_name mask connects s =
      if mask == in_create
      then (elim (find class_name (stored m s)) [
        | none ↦ verify_socket_is_communicating m path class_name register connects s
        | some obj ↦
            let found =
              set_stored m (assign class_name (record obj { endpoint = some path }) (stored m s))
                s in
            if obj.is_being_added
            then verify_socket_is_communicating m path class_name confirm connects found
            else found
      ])
      else if mask == in_delete
      then set_stored m (remove_stored_socket class_name (stored m s)) s
      else s

  unfoldable pub check_socket_and_update_list :
      String → String → ℕ → (String → Bool) → System Json → System Json
  unfolding socket_name_of parse_socket_name update_list
  check_socket_and_update_list path name mask connects s =
      elim (parse_socket_name (socket_name_of path name)) [
        | none ↦ s
        | some (m, class_name) ↦ update_list m path class_name mask connects s
      ]
