-- ===== src/Tests/Files.antt =====
-- The theorems on files, at concrete inputs; a map from paths to contents stands for the files.
use Prim.Native.String.{◌++◌}
use mathlib.Core.List.{Memᴰ}
use kekmonitors_cpp.Prelude.{
  String, ◌≡◌, refl, false, Option, none, some, [], ◌∷◌, Map, find, is_some, str_eq, eq_iff,
  if◌then◌else◌, arith,
}
use kekmonitors_cpp.Prelude.Outcome.{done, returns}
use kekmonitors_cpp.Text.{begins, drop, take}
use kekmonitors_cpp.Utils.Python.{
  is_python_3, get_python_executable, find_python, get_python_executable_lem,
}
use kekmonitors_cpp.Utils.Files.{FileApi}
use kekmonitors_cpp.Config.{default_config, get_config, get_config_twice}

-- Only "python3" is installed.
abbrev installed : String → Option String
installed line = if str_eq line "python3 --version" then some "Python 3.6.12" else none

get_python_executable_lem_example :
    Memᴰ {A = String} "python3" ("python" ∷ "python3" ∷ [])
    × (version : String) × (installed ("python3" ++ " --version") ≡ some version)
    × (take 1 (drop 7 version) ≡ "3")
    × (str_eq "python3" "" ≡ false)
    × (get_python_executable (λ line. none) "python3" ≡ done "python3")
unfolding get_python_executable find_python is_python_3 begins drop
get_python_executable_lem_example =
    get_python_executable_lem installed (λ line. none) "python3" refl

abbrev write : String → String → Map String → Option (Map String)
write path content s = some ((path, content) ∷ s)

write-find :
    (path content : String) (s t : Map String)
    → write path content s ≡ some t
    → find path t ≡ some content
unfolding find
write-find path content s t h = ground (arith, eq_iff path path)

instance abbrev sample_files : FileApi (Map String)
sample_files = record {
  create_directories = λ dir s. some s;
  is_regular_file = λ s path. is_some (find path s);
  exists = λ s path. is_some (find path s);
  read = λ s path. find path s;
  write = write;
  is_regular_file-write = λ path content s t a h. rw (write-find path content s t h) refl;
  read-write = λ path content s t a h. write-find path content s t h;
  create_directories-write = λ dir path content r s t d w. refl;
}

abbrev parse_any : String → Option String
parse_any ini = some ini

get_config_twice_example :
    (get_config {S = Map String} parse_any "/home/u" none []
      ≡ returns
          (default_config "/home/u", ("/home/u/config/config.cfg", default_config "/home/u") ∷ []))
    × (get_config {S = Map String} parse_any "/home/u" none
          (("/home/u/config/config.cfg", default_config "/home/u") ∷ [])
        ≡ returns (
          default_config "/home/u",
          ("/home/u/config/config.cfg", default_config "/home/u") ∷ [],
        ))
    × (find "/home/u/config/config.cfg"
          (("/home/u/config/config.cfg", default_config "/home/u") ∷ [])
        ≡ some (default_config "/home/u"))
unfolding find
get_config_twice_example =
    get_config_twice parse_any "/home/u" (default_config "/home/u") [] [] _ refl refl refl refl refl
