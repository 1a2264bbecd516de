-- ===== src/Moman/Invariant/Watching.antt =====
-- The watcher, by what sockets keep and by what does not depend on watches and sendings.
use Prim.Native.String.{◌++◌}
use kekmonitors_cpp.Prelude.{
  ℕ, String, Bool, not, ◌&&◌, ◌||◌, List, [], ◌∷◌, ◌==◌, get_elem?, str_eq, if◌then◌else◌,
}
use kekmonitors_cpp.Prelude.Outcome.{Outcome, done, throws, undefined, ◌>>=◌}
use kekmonitors_cpp.Core.Codes.{ErrorCode}
use kekmonitors_cpp.Json.{JsonApi}
use kekmonitors_cpp.Moman.State.{Sending, SendingStage, Watch, System}
use kekmonitors_cpp.Moman.Sockets.{in_create, in_delete, in_modify, check_socket_and_update_list}
use kekmonitors_cpp.Moman.Configs.{parse_and_send_configs, next_stage}
use kekmonitors_cpp.Moman.Watcher.{
  WatcherWorld, InotifyEvent, is_dir, is_create, is_delete, without_isdir, in_close_nowrite,
  in_close_write, config_sub_dirs, config_files, is_listed, is_watched, full_event_path, send_file,
  create_or_delete, watch_path, is_erased, erased_after, on_inotify_batch, config_created,
  config_deleted, config_changed, on_inotify_event, on_inotify_update,
}
use kekmonitors_cpp.Moman.Loop.{on_sent}
use kekmonitors_cpp.Moman.Invariant.Base.{Ensures}
use kekmonitors_cpp.Moman.Invariant.Answers.{Option-rule, if-rule}

Ensures-bind :
    {S : Type 0} (P : S → Type 0) (o : Outcome S) (f : S → Outcome S)
    → Ensures P o
    → ((s : S) → P s → Ensures P (f s))
    → Ensures P (o >>= f)
Ensures-bind P (done s) f h k = k s h
Ensures-bind P (throws e s) f h k = h
Ensures-bind P undefined f h k = tt

module _ {Json : Type 0} ⦃J : JsonApi Json⦄ (P : System Json → Type 0)
    (frame : (ws : List Watch) (xs : List (Sending Json × SendingStage)) (s : System Json)
      → P s
      → P (record s { watches = ws; sendings = xs }))
    (sockets : (path name : String) (mask : ℕ) (connects : String → Bool) (s : System Json)
      → P s
      → P (check_socket_and_update_list path name mask connects s)) where
  keeps-send_file :
      (w : WatcherWorld Json) (path filename : String) (s : System Json)
      → P s
      → Ensures P (send_file w path filename s)
  unfolding send_file
  keeps-send_file w path filename s h =
      Option-rule (Ensures P) (parse_and_send_configs (w.content path) path filename s) _ _ tt
        (λ sends _. frame s.watches _ s h)

  keeps-watch_path :
      (w : WatcherWorld Json) (path : String) (mask : ℕ) (s : System Json)
      → P s
      → Ensures P (watch_path w path mask s)
  unfolding watch_path
  keeps-watch_path w path mask s h =
      let k = frame _ s.sendings s h in if-rule (Ensures P) (w.adds path) _ _ k k

  keeps-config_deleted :
      (w : WatcherWorld Json) (mask : ℕ) (path filename : String) (s : System Json)
      → P s
      → Ensures P (config_deleted w mask path filename s)
  unfolding config_deleted
  keeps-config_deleted w mask path filename s h =
      if-rule (Ensures P)
        (is_listed filename (if is_dir mask then config_sub_dirs else config_files)) _ _
        (if-rule (Ensures P) (is_watched path s.watches && not (w.removes path)) _ _ h
          (frame _ s.sendings s h))
        h

  keeps-config_changed :
      (w : WatcherWorld Json) (mask : ℕ) (path filename : String) (s : System Json)
      → P s
      → Ensures P (config_changed w mask path filename s)
  unfolding config_changed config_created
  keeps-config_changed w mask path filename s h =
      let m = without_isdir mask in
      let sends = keeps-send_file w path filename s h in
      let others =
        if-rule (Ensures P) (m == in_modify || (m == in_close_nowrite || m == in_close_write)) _ _
          sends
          (if-rule (Ensures P) (m == in_delete) _ (done s)
            (keeps-config_deleted w mask path filename s h) h) in
      if-rule (Ensures P) (m == in_create) _ _
        (if-rule (Ensures P) (is_dir mask) _ _
          (if-rule (Ensures P) (is_listed filename config_sub_dirs) _ (done s)
            (keeps-watch_path w path create_or_delete s h) h)
          (if-rule (Ensures P) (is_listed filename config_files) _ (done s)
            (if-rule (Ensures P) (is_watched path s.watches) _ _ sends (
              Ensures-bind P (watch_path w path in_modify s) _
                (keeps-watch_path w path in_modify s h)
                (λ t k. keeps-send_file w path filename t k)))
            h))
        others

  keeps-on_inotify_event :
      (w : WatcherWorld Json) (event : InotifyEvent) (s : System Json)
      → P s
      → Ensures P (on_inotify_event w event s)
  unfolding on_inotify_event
  keeps-on_inotify_event w event s h = Option-rule (Ensures P) event.watch _ _ tt (λ event_path _.
      let path = full_event_path event_path event.name in
      if-rule (Ensures P) (not event.got_event) _ _ h (
        if-rule (Ensures P) (str_eq event_path w.socket_path) _ _
          (if-rule (Ensures P) ((is_create event.mask && w.is_socket path) || is_delete event.mask)
            _ (done s)
            (sockets (event_path ++ ("/" ++ event.name)) event.name event.mask w.connects s h) h)
          (keeps-config_changed w event.mask path event.name s h)))

  keeps-on_inotify_batch :
      (w : WatcherWorld Json) (erased : List String) (events : List InotifyEvent) (s : System Json)
      → P s
      → Ensures P (on_inotify_batch w erased events s)
  unfolding on_inotify_batch
  keeps-on_inotify_batch w erased [] s h = h
  keeps-on_inotify_batch w erased (event ∷ events) s h =
      if-rule (Ensures P) (is_erased event erased) _ _ tt (
        Ensures-bind P (on_inotify_event w event s) _ (keeps-on_inotify_event w event s h)
          (λ t k. keeps-on_inotify_batch w (erased_after event s t erased) events t k))

  pub keeps-on_inotify_update :
      (w : WatcherWorld Json) (events : List InotifyEvent) (s : System Json)
      → P s
      → Ensures P (on_inotify_update w events s)
  unfolding on_inotify_update
  keeps-on_inotify_update w events s h = keeps-on_inotify_batch w [] events s h

  pub keeps-on_sent : (n : ℕ) (err : ErrorCode) (s : System Json) → P s → P (on_sent n err s)
  unfolding on_sent
  keeps-on_sent n err s h = Option-rule P (get_elem? s.sendings n) _ _ h (λ x _.
      Option-rule P (next_stage x.1 err) _ _ (frame s.watches _ s h)
        (λ stage _. frame s.watches _ s h))
