-- ===== src/Config.antt =====
-- src/lib/config.cpp: the configuration file with its default text, and `Config`.
use Prim.Native.String.{◌++◌}
use kekmonitors_cpp.Prelude.{String, ◌≡◌, refl, false, Option, none, some}
use kekmonitors_cpp.Prelude.Outcome.{Try, returns, raises, ini_parser_error}
use kekmonitors_cpp.Utils.Files.{
  FileApi, folder, get_content_if_file_exists_else_create,
  get_content_if_file_exists_else_create_twice,
}

-- `s_defaultConfig`, with the folder of `getLocalKekDir`.
abbrev pub default_config : String → String
default_config kek_dir =
    "[GlobalConfig]\nsocket_path = "
    ++ (kek_dir
        ++ ("/sockets\nlog_path = "
            ++ (kek_dir
                ++ "/logs\ndb_name = kekmonitors\ndb_path = mongodb://localhost:27017/\n\n[WebhookConfig]\ncrash_webhook = \nprovider = KekMonitors\nprovider_icon = https://avatars0.githubusercontent.com/u/11823129?s=400&u=3e617374871087e64b5fde0df668260f2671b076&v=4\ntimestamp_format = %d %b %Y, %H:%M:%S.%f\nembed_color = 255\n\n[OtherConfig]\nclass_name =\nsocket_name =\n\n[Options]\nadd_stream_handler = True\nenable_config_watcher = True\nenable_webhooks = True\nloop_delay = 5\nmax_last_seen = 2592000\n")))

-- `getUserHomeDir`: the variable "HOME", `none` where it is not set, and `pw_dir` of the user.
abbrev pub get_user_home_dir : Option String → String → String
get_user_home_dir (some home) pw_dir = home
get_user_home_dir none pw_dir = pw_dir

abbrev pub get_local_kek_dir : Option String → String → String
get_local_kek_dir home pw_dir = get_user_home_dir home pw_dir ++ "/.kekmonitors"

module _ {S Tree : Type 0} ⦃F : FileApi S⦄ (read_ini : String → Option Tree) where
  -- `Config::Config`: the tree, and the files that are left. `read_ini` of boost::property_tree gives
  -- `none` where it throws.
  unfoldable pub new_config : String → S → Try (Tree × S)
  unfolding get_content_if_file_exists_else_create
  new_config kek_dir s =
      let config_path = kek_dir ++ "/config/config.cfg" in
      elim (get_content_if_file_exists_else_create config_path (default_config kek_dir) s) [
        | raises e ↦ raises e
        | returns (text, t) ↦ elim (F.read t config_path) [
          | none ↦ raises ini_parser_error
          | some ini ↦ elim (read_ini ini) [
            | none ↦ raises ini_parser_error
            | some tree ↦ returns (tree, t)
          ]
        ]
      ]

  -- `getConfig`, with its static variable.
  unfoldable pub get_config : String → Option Tree → S → Try (Tree × S)
  unfolding new_config
  get_config kek_dir (some config) s = returns (config, s)
  get_config kek_dir none s = new_config kek_dir s

  -- Where the configuration file is not there but can be created, and the default text can be
  -- parsed, the first program that starts writes that text and has its configuration; a later
  -- one has the same and changes no file.
  pub get_config_twice :
      (kek_dir : String) (tree : Tree) (s t u : S)
      → F.create_directories (folder (kek_dir ++ "/config/config.cfg")) s ≡ some t
      → F.exists t (kek_dir ++ "/config/config.cfg") ≡ false
      → F.is_regular_file t (kek_dir ++ "/config/config.cfg") ≡ false
      → F.write (kek_dir ++ "/config/config.cfg") (default_config kek_dir) t ≡ some u
      → read_ini (default_config kek_dir) ≡ some tree
      → (get_config kek_dir none s ≡ returns (tree, u))
        × (get_config kek_dir none u ≡ returns (tree, u))
        × (F.read u (kek_dir ++ "/config/config.cfg") ≡ some (default_config kek_dir))
  unfolding get_config
  get_config_twice kek_dir tree s t u d a r w p =
      let path = kek_dir ++ "/config/config.cfg" in
      let content = default_config kek_dir in
      let twice = get_content_if_file_exists_else_create_twice path content content s t u d a r w in
      let written = F.read-write path content t u a w in
      (
        rw (new_config, twice.0, written, p) refl,
        rw (new_config, twice.1, written, p) refl,
        written,
      )
