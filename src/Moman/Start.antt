-- ===== src/Moman/Start.antt =====
-- The constructor of `class MonitorManager` in src/bin/moman/moman.cpp: what it does to the state.
use kekmonitors_cpp.Prelude.{String, Bool, not, ◌&&◌, List, [], ◌∷◌, str_eq, if◌then◌else◌}
use kekmonitors_cpp.Server.{start_accepting}
use kekmonitors_cpp.Moman.State.{System, empty_system}
use kekmonitors_cpp.Moman.Watcher.{FileTypes, first_watches}
use kekmonitors_cpp.Moman.Sockets.{in_create, check_socket_and_update_list}

-- An entry of the folder of sockets: its path, the last part of it, and what `stat` says.
pub record DirectoryEntry : Type 0 where
  pub path : String
  pub filename : String
  pub is_socket : Bool

-- What the constructor finds: the folder of sockets and which of them accept, the configured
-- "GlobalConfig.socket_path", the folder that `getLocalKekDir` gives, and what it holds.
pub record StartWorld : Type 0 where
  pub entries : List DirectoryEntry
  pub connects : String → Bool
  pub socket_path : String
  pub kek_dir : String
  pub types : FileTypes

module _ {Json : Type 0} where
  -- The loop over the folder of sockets.
  unfoldable pub find_sockets : List DirectoryEntry → (String → Bool) → System Json → System Json
  unfolding check_socket_and_update_list
  find_sockets [] connects s = s
  find_sockets (file ∷ files) connects s = find_sockets files connects (
      if file.is_socket && not (str_eq file.filename "MonitorManager")
      then check_socket_and_update_list file.path file.filename in_create connects s
      else s)

  unfoldable pub init : StartWorld → System Json
  unfolding find_sockets empty_system first_watches start_accepting
  init w =
      let s = find_sockets w.entries w.connects empty_system in
      record s {
        watches = first_watches w.types w.socket_path w.kek_dir;
        server = start_accepting s.server;
      }
