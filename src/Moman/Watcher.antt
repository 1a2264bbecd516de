-- ===== src/Moman/Watcher.antt =====
-- `onInotifyUpdate` of src/bin/moman/moman.cpp, and the watches that the constructor adds.
use Prim.Native.String.{◌++◌}
use kekmonitors_cpp.Prelude.{
  ℕ, ◌-◌, ◌/◌, ◌%◌, ◌^◌, String, Bool, false, not, ◌&&◌, ◌||◌, Option, none, some, List, [], ◌∷◌,
  ◌==◌, ltb, length, str_eq, if◌then◌else◌,
}
use kekmonitors_cpp.Prelude.Outcome.{Outcome, done, throws, undefined, inotify_exception, ◌>>=◌}
use kekmonitors_cpp.Json.{JsonApi}
use kekmonitors_cpp.Moman.State.{Watch, System}
use kekmonitors_cpp.Moman.Sockets.{in_create, in_delete, in_modify, check_socket_and_update_list}
use kekmonitors_cpp.Moman.Configs.{parse_and_send_configs, started_sendings}

-- The other masks of <sys/inotify.h>; `in_isdir` is the bit 30.
abbrev pub in_close_write : ℕ
in_close_write = 0x8

abbrev pub in_close_nowrite : ℕ
in_close_nowrite = 0x10

abbrev pub create_or_delete : ℕ
create_or_delete = 0x300

-- `mask & (1 << bit)`
abbrev pub has_bit : ℕ → ℕ → Bool
has_bit mask bit = (mask / 2 ^ bit) % 2 == 1

abbrev pub is_create : ℕ → Bool
is_create mask = has_bit mask 8

abbrev pub is_delete : ℕ → Bool
is_delete mask = has_bit mask 9

abbrev pub is_dir : ℕ → Bool
is_dir mask = has_bit mask 30

-- `mask & ~IN_ISDIR`
abbrev pub without_isdir : ℕ → ℕ
without_isdir mask = if is_dir mask then mask - 2 ^ 30 else mask

abbrev pub config_sub_dirs : List String
config_sub_dirs = "common" ∷ "monitors" ∷ "scrapers" ∷ []

abbrev pub config_files : List String
config_files = "whitelists.json" ∷ "blacklists.json" ∷ "webhooks.json" ∷ "configs.json" ∷ []

-- `std::find(names.begin(), names.end(), name) != names.end()`
unfoldable pub is_listed : String → List String → Bool
is_listed name [] = false
is_listed name (n ∷ names) = str_eq n name || is_listed name names

-- `alreadyMonitored`
unfoldable pub is_watched : String → List Watch → Bool
is_watched path [] = false
is_watched path (w ∷ ws) = str_eq w.path path || is_watched path ws

-- `watches.emplace_back`
unfoldable pub add_watch : String → ℕ → List Watch → List Watch
add_watch path mask [] = record { path = path; mask = mask } ∷ []
add_watch path mask (w ∷ ws) = w ∷ add_watch path mask ws

-- The loop that removes the first watch of the path.
unfoldable pub remove_watch : String → List Watch → List Watch
remove_watch path [] = []
remove_watch path (w ∷ ws) = if str_eq w.path path then ws else w ∷ remove_watch path ws

-- What `GetEvent` leaves: whether there was an event, its name and mask, and the path of its watch,
-- `none` where `GetWatch` gives no watch.
pub record InotifyEvent : Type 0 where
  pub got_event : Bool
  pub name : String
  pub mask : ℕ
  pub watch : Option String

-- The world that the watcher asks: the configured "GlobalConfig.socket_path", which paths are
-- sockets and which sockets accept, what a file parses to, and for which paths `inotify.Add` and
-- `inotify.Remove` return, not throw.
pub record WatcherWorld (Json : Type 0) : Type 0 where
  pub socket_path : String
  pub is_socket : String → Bool
  pub connects : String → Bool
  pub content : String → Option Json
  pub adds : String → Bool
  pub removes : String → Bool

abbrev pub full_event_path : String → String → String
full_event_path event_path filename =
    if str_eq filename "" then event_path else event_path ++ ("/" ++ filename)

-- Whether the watch of an event was erased.
unfoldable pub is_erased : InotifyEvent → List String → Bool
unfolding is_listed
is_erased event erased = elim event.watch [
  | none ↦ false
  | some event_path ↦ is_listed event_path erased
]

module _ {Json : Type 0} ⦃J : JsonApi Json⦄ where
  -- `parseAndSendConfigs`, with the connections that it starts.
  unfoldable pub send_file :
      WatcherWorld Json → String → String → System Json → Outcome (System Json)
  unfolding parse_and_send_configs
  send_file w path filename s = elim (parse_and_send_configs (w.content path) path filename s) [
    | none ↦ undefined
    | some sends ↦ done (record s { sendings = started_sendings sends s.sendings })
  ]

  -- `watches.emplace_back`, and `inotify.Add` of what it added.
  unfoldable pub watch_path : WatcherWorld Json → String → ℕ → System Json → Outcome (System Json)
  unfolding add_watch
  watch_path w path mask s =
      let t = record s { watches = add_watch path mask s.watches } in
      if w.adds path then done t else throws inotify_exception t

  -- `IN_CREATE` in a watched folder of the configuration.
  unfoldable pub config_created :
      WatcherWorld Json → ℕ → String → String → System Json → Outcome (System Json)
  unfolding is_listed is_watched watch_path send_file
  config_created w mask path filename s =
      if is_dir mask
      then (if is_listed filename config_sub_dirs
          then watch_path w path create_or_delete s
          else done s)
      else if is_listed filename config_files
      then (if is_watched path s.watches
          then send_file w path filename s
          else watch_path w path in_modify s >>= λ t. send_file w path filename t)
      else done s

  -- `IN_DELETE` there: `inotify.Remove` of the first watch of the path, and its erasure.
  unfoldable pub config_deleted :
      WatcherWorld Json → ℕ → String → String → System Json → Outcome (System Json)
  unfolding is_listed is_watched remove_watch
  config_deleted w mask path filename s =
      if is_listed filename (if is_dir mask then config_sub_dirs else config_files)
      then (if is_watched path s.watches && not (w.removes path)
          then throws inotify_exception s
          else done (record s { watches = remove_watch path s.watches }))
      else done s

  -- The `switch` over the mask.
  unfoldable pub config_changed :
      WatcherWorld Json → ℕ → String → String → System Json → Outcome (System Json)
  unfolding config_created config_deleted send_file
  config_changed w mask path filename s =
      let m = without_isdir mask in
      if m == in_create
      then config_created w mask path filename s
      else if m == in_modify || (m == in_close_nowrite || m == in_close_write)
      then send_file w path filename s
      else if m == in_delete
      then config_deleted w mask path filename s
      else done s

  -- One round of the loop over the events.
  unfoldable pub on_inotify_event :
      WatcherWorld Json → InotifyEvent → System Json → Outcome (System Json)
  unfolding check_socket_and_update_list config_changed
  on_inotify_event w event s = elim event.watch [
    | none ↦ undefined
    | some event_path ↦
        let path = full_event_path event_path event.name in
        if not event.got_event
        then done s
        else if str_eq event_path w.socket_path
        then (if (is_create event.mask && w.is_socket path) || is_delete event.mask
            then done (
                check_socket_and_update_list (event_path ++ ("/" ++ event.name)) event.name
                  event.mask w.connects s)
            else done s)
        else config_changed w event.mask path event.name s
  ]

  -- The paths of the erased watches after a round that led from `s` to `t`: a round erases at most
  -- one watch, that of its own path, and then the list is shorter.
  unfoldable pub erased_after : InotifyEvent → System Json → System Json → List String → List String
  erased_after event s t erased = elim event.watch [
    | none ↦ erased
    | some event_path ↦
        if ltb (length t.watches) (length s.watches)
        then full_event_path event_path event.name ∷ erased
        else erased
  ]

  -- The loop. Every event points to a watch that was in the list when the loop began; `erased` has
  -- the paths of those that were erased since, which `GetWatch()->GetPath()` must not read.
  unfoldable pub on_inotify_batch :
      WatcherWorld Json → List String → List InotifyEvent → System Json → Outcome (System Json)
  unfolding is_erased on_inotify_event erased_after
  on_inotify_batch w erased [] s = done s
  on_inotify_batch w erased (event ∷ events) s =
      if is_erased event erased
      then undefined
      else on_inotify_event w event s >>= λ t.
          on_inotify_batch w (erased_after event s t erased) events t

  unfoldable pub on_inotify_update :
      WatcherWorld Json → List InotifyEvent → System Json → Outcome (System Json)
  unfolding on_inotify_batch
  on_inotify_update w events s = on_inotify_batch w [] events s

-- What the constructor asks of the file system.
pub record FileTypes : Type 0 where
  pub is_directory : String → Bool
  pub is_regular_file : String → Bool

-- The watches of the files of a folder, and of the folders, that are there.
unfoldable pub watch_files : FileTypes → String → List String → List Watch → List Watch
unfolding add_watch
watch_files t sub_path [] ws = ws
watch_files t sub_path (file ∷ files) ws =
    let path = sub_path ++ ("/" ++ file) in
    watch_files t sub_path files
      (if t.is_regular_file path then add_watch path in_modify ws else ws)

unfoldable pub watch_sub_dirs : FileTypes → String → List String → List Watch → List Watch
unfolding add_watch watch_files
watch_sub_dirs t config_dir [] ws = ws
watch_sub_dirs t config_dir (sub_dir ∷ sub_dirs) ws =
    let path = config_dir ++ ("/" ++ sub_dir) in
    watch_sub_dirs t config_dir sub_dirs (
      if t.is_directory path
      then watch_files t path config_files (add_watch path create_or_delete ws)
      else ws)

-- `kek_dir` is `getLocalKekDir()`.
unfoldable pub first_watches : FileTypes → String → String → List Watch
unfolding add_watch watch_sub_dirs
first_watches t socket_path kek_dir =
    let config_dir = kek_dir ++ "/config" in
    watch_sub_dirs t config_dir config_sub_dirs
      (add_watch config_dir create_or_delete (add_watch socket_path create_or_delete []))
