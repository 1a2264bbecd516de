-- ===== src/Moman/Watches/Leaves.antt =====
-- What the handling of one event leaves in the list of watches.
use kekmonitors_cpp.Prelude.{
  ℕ, ◌≡◌, refl, String, Bool, Option, true, false, not, ◌&&◌, ◌||◌, none, some, List, [], ◌==◌,
  str_eq, if◌then◌else◌, Map, arith, ◌∙◌,
}
use kekmonitors_cpp.Prelude.Outcome.{Outcome, done}
use kekmonitors_cpp.Json.{JsonApi}
use kekmonitors_cpp.Core.Codes.{MonitorOrScraper, monitor, scraper}
use kekmonitors_cpp.Moman.State.{Sending, Watch, OnSuccess, System, set_stored, StoredObject}
use kekmonitors_cpp.Moman.Sockets.{
  in_create, in_delete, in_modify, check_socket_and_update_list, verify_socket_is_communicating,
}
use kekmonitors_cpp.Moman.Configs.{parse_and_send_configs, config_sub_dir}
use kekmonitors_cpp.Moman.Watcher.{
  WatcherWorld, is_dir, in_close_nowrite, in_close_write, without_isdir, config_sub_dirs,
  config_files, is_listed, is_watched, send_file, config_created, watch_path, config_deleted,
  config_changed,
}
use kekmonitors_cpp.Moman.Invariant.Answers.{if-rule, if-cases}
use kekmonitors_cpp.Moman.Invariant.Frames.{keeps-check_socket_and_update_list}
use kekmonitors_cpp.Moman.Watches.{changed_watches}

-- The loop over the path finds its folder.
abbrev pub IsInFolder : String → Type 0
IsInFolder path = (sub_dir : String) × (config_sub_dir path ≡ some sub_dir)

module _ {Json : Type 0} where
  -- The call returns with these watches.
  abbrev pub Leaves : List Watch → Outcome (System Json) → Type 0
  Leaves ws o = (t : System Json) × (o ≡ done t) × (t.watches ≡ ws)

  watches-verify_socket_is_communicating :
      (m : MonitorOrScraper) (path k : String) (next : OnSuccess) (connects : String → Bool)
      (s : System Json)
      → (verify_socket_is_communicating m path k next connects s).watches ≡ s.watches
  unfolding verify_socket_is_communicating
  watches-verify_socket_is_communicating m path k next connects s = ground arith

  watches-set_stored :
      (m : MonitorOrScraper) (map : Map StoredObject) (s : System Json)
      → (set_stored m map s).watches ≡ s.watches
  watches-set_stored monitor map s = refl
  watches-set_stored scraper map s = refl

  pub watches-check_socket_and_update_list :
      (path name : String) (mask : ℕ) (connects : String → Bool) (s : System Json)
      → (check_socket_and_update_list path name mask connects s).watches ≡ s.watches
  watches-check_socket_and_update_list path name mask connects s =
      keeps-check_socket_and_update_list (λ t. t.watches ≡ s.watches)
        (λ m map t h. watches-set_stored m map t ∙ h)
        (λ m p k next c t h. watches-verify_socket_is_communicating m p k next c t ∙ h) path name
        mask connects s refl

pub if-rule_both :
    {A B : Type 0} (P : A → B → Type 0) (c : Bool) (x y : A) (u v : B)
    → P x u
    → P y v
    → P (if c then x else y) (if c then u else v)
if-rule_both P true x y u v hx hy = hx
if-rule_both P false x y u v hx hy = hy

pub if-cases_both :
    {A B : Type 0} (P : A → B → Type 0) (c : Bool) (x y : A) (u v : B)
    → (c ≡ true → P x u)
    → (c ≡ false → P y v)
    → P (if c then x else y) (if c then u else v)
if-cases_both P true x y u v hx hy = hx refl
if-cases_both P false x y u v hx hy = hy refl

module _ {Json : Type 0} ⦃J : JsonApi Json⦄ where
  parse_and_send_configs_total :
      (content : Option Json) (path filename : String) (s : System Json)
      → IsInFolder path
      → (l : List (Sending Json)) × (parse_and_send_configs content path filename s ≡ some l)
  unfolding parse_and_send_configs
  parse_and_send_configs_total none path filename s h = ([], refl)
  parse_and_send_configs_total (some config) path filename s (sub_dir, h) =
      let P = λ (o : Option (List (Sending Json))). (l : List (Sending Json)) × (o ≡ some l) in
      if-rule P (J.is_object config) _ _
        (rw h (if-rule P (str_eq sub_dir "") _ _ (_, refl) (_, refl))) ([], refl)

  module _ (w : WatcherWorld Json) where
    send_file-Leaves :
        (path filename : String) (s : System Json)
        → IsInFolder path
        → Leaves s.watches (send_file w path filename s)
    unfolding send_file
    send_file-Leaves path filename s h =
        let sent = parse_and_send_configs_total (w.content path) path filename s h in
        rw (sent.1, send_file) (_, refl, refl)

    pub config_changed-Leaves :
        (mask : ℕ) (path filename : String) (s : System Json)
        → IsInFolder path
        → w.adds path ≡ true
        → w.removes path ≡ true
        → Leaves
            (changed_watches mask path filename s.watches)
            (config_changed w mask path filename s)
    unfolding config_changed config_created config_deleted watch_path changed_watches
    config_changed-Leaves mask path filename s h adds removes =
        let m = without_isdir mask in
        let P = λ (o : Outcome (System Json)) (ws : List Watch). Leaves ws o in
        let same : Leaves s.watches (done s) = (s, refl, refl) in
        if-rule_both P (m == in_create) _ _ _ _
          (if-rule_both P (is_dir mask) _ _ _ _
            (if-rule_both P (is_listed filename config_sub_dirs) _ _ _ _ (rw adds (_, refl, refl))
              same)
            (if-rule_both P (is_listed filename config_files) _ _ _ _
              (if-rule_both P (is_watched path s.watches) _ _ _ _
                (send_file-Leaves path filename s h) (rw adds (send_file-Leaves path filename _ h)))
              same))
          (if-rule_both P (m == in_modify || (m == in_close_nowrite || m == in_close_write)) _ _ _ _
            (send_file-Leaves path filename s h)
            (if-rule_both P (m == in_delete) _ _ _ _
              (if-rule_both P
                (is_listed filename (if is_dir mask then config_sub_dirs else config_files)) _ _ _ _
                (if-cases (Leaves _) (is_watched path s.watches && not (w.removes path)) _ _
                  (λ c. absurd (ground (arith, c, removes))) (λ c. (_, refl, refl)))
                same)
              same))
