-- ===== src/Moman/Watches.antt =====
-- The set of paths that a list of watches stands for.
use kekmonitors_cpp.Prelude.{
  ℕ, ◌+◌, ◌≤◌, ◌≡◌, refl, String, Bool, true, false, not, ◌&&◌, ◌||◌, List, [], ◌∷◌, ◌==◌, length,
  ltb, str_eq, eq_iff, arith, if◌then◌else◌,
}
use kekmonitors_cpp.Moman.State.{Watch}
use kekmonitors_cpp.Moman.Sockets.{in_create, in_delete, in_modify}
use kekmonitors_cpp.Moman.Watcher.{
  is_dir, without_isdir, in_close_nowrite, in_close_write, create_or_delete, config_sub_dirs,
  config_files, is_listed, is_watched, add_watch, remove_watch,
}
pub mod Leaves
pub mod Refinement

abbrev pub occurrences : String → List Watch → ℕ
occurrences path [] = 0
occurrences path (w ∷ ws) = (if str_eq w.path path then 1 else 0) + occurrences path ws

-- No path is watched twice.
abbrev pub IsUnique : List Watch → Type 0
IsUnique ws = (path : String) → occurrences path ws ≤ 1

is_watched-occurrences :
    (path : String) (ws : List Watch) → is_watched path ws ≡ not (occurrences path ws == 0)
unfolding is_watched
is_watched-occurrences path [] = refl
is_watched-occurrences path (w ∷ ws) = ground (arith, is_watched-occurrences path ws)

occurrences-add_watch :
    (q path : String) (mask : ℕ) (ws : List Watch)
    → occurrences q (add_watch path mask ws) ≡ (if str_eq path q then 1 else 0) + occurrences q ws
unfolding add_watch
occurrences-add_watch q path mask [] = refl
occurrences-add_watch q path mask (w ∷ ws) = omega (arith, occurrences-add_watch q path mask ws)

occurrences-remove_watch :
    (q path : String) (ws : List Watch)
    → occurrences q ws ≤ 1
    → occurrences q (remove_watch path ws) ≡ (if str_eq path q then 0 else occurrences q ws)
unfolding remove_watch
occurrences-remove_watch q path [] h = ground arith
occurrences-remove_watch q path (w ∷ ws) h =
    ground (
      arith,
      occurrences-remove_watch q path ws,
      eq_iff w.path path,
      eq_iff w.path q,
      eq_iff path q,
    )

length-add_watch :
    (path : String) (mask : ℕ) (ws : List Watch) → length (add_watch path mask ws) ≡ 1 + length ws
unfolding add_watch
length-add_watch path mask [] = refl
length-add_watch path mask (w ∷ ws) = omega (arith, length-add_watch path mask ws)

length-remove_watch :
    (path : String) (ws : List Watch)
    → length (remove_watch path ws) + (if is_watched path ws then 1 else 0) ≡ length ws
unfolding remove_watch is_watched
length-remove_watch path [] = refl
length-remove_watch path (w ∷ ws) = ground (arith, length-remove_watch path ws)

-- A set of paths.
abbrev pub Paths : Type 0
Paths = String → Bool

abbrev pub paths_of : List Watch → Paths
paths_of ws q = is_watched q ws

-- What a change of a folder or file of the configuration does to the set: one that is created is
-- in it, one that is deleted is not.
unfoldable pub config_spec : ℕ → String → String → Paths → Paths
config_spec mask path filename paths q =
    if is_listed filename (if is_dir mask then config_sub_dirs else config_files)
    then (if without_isdir mask == in_create
        then str_eq path q || paths q
        else if without_isdir mask == in_delete
        then not (str_eq path q) && paths q
        else paths q)
    else paths q

-- What the code does to the list.
unfoldable pub changed_watches : ℕ → String → String → List Watch → List Watch
changed_watches mask path filename ws =
    let m = without_isdir mask in
    if m == in_create
    then (if is_dir mask
        then (if is_listed filename config_sub_dirs then add_watch path create_or_delete ws else ws)
        else if is_listed filename config_files
        then (if is_watched path ws then ws else add_watch path in_modify ws)
        else ws)
    else if m == in_modify || (m == in_close_nowrite || m == in_close_write)
    then ws
    else if m == in_delete
    then (if is_listed filename (if is_dir mask then config_sub_dirs else config_files)
        then remove_watch path ws
        else ws)
    else ws

-- The list gets shorter exactly if the path goes from the set.
pub length-changed_watches :
    (mask : ℕ) (path filename : String) (ws : List Watch)
    → IsUnique ws
    → ltb (length (changed_watches mask path filename ws)) (length ws)
      ≡ paths_of ws path && not (config_spec mask path filename (paths_of ws) path)
unfolding changed_watches config_spec
length-changed_watches mask path filename ws u = ground (
  arith,
  u path,
  eq_iff path path,
  is_watched-occurrences path ws,
  length-add_watch path create_or_delete ws,
  length-add_watch path in_modify ws,
  length-remove_watch path ws,
)

-- The folder that is created is not watched already.
abbrev pub IsNew : ℕ → String → Paths → Type 0
IsNew mask path paths = is_dir mask ≡ true → without_isdir mask ≡ in_create → paths path ≡ false

pub IsUnique-changed_watches :
    (mask : ℕ) (path filename : String) (ws : List Watch)
    → IsNew mask path (paths_of ws)
    → IsUnique ws
    → IsUnique (changed_watches mask path filename ws)
unfolding changed_watches
IsUnique-changed_watches mask path filename ws new u q = ground (
  arith,
  u q,
  new,
  eq_iff path q,
  is_watched-occurrences path ws,
  occurrences-add_watch q path create_or_delete ws,
  occurrences-add_watch q path in_modify ws,
  occurrences-remove_watch q path ws,
)

pub paths_of-changed_watches :
    (mask : ℕ) (path filename : String) (ws : List Watch)
    → IsUnique ws
    → (q : String)
    → paths_of (changed_watches mask path filename ws) q
      ≡ config_spec mask path filename (paths_of ws) q
unfolding changed_watches config_spec
paths_of-changed_watches mask path filename ws u q = ground (
  arith,
  u q,
  eq_iff path q,
  is_watched-occurrences path ws,
  is_watched-occurrences q ws,
  is_watched-occurrences q (add_watch path create_or_delete ws),
  is_watched-occurrences q (add_watch path in_modify ws),
  is_watched-occurrences q (remove_watch path ws),
  occurrences-add_watch q path create_or_delete ws,
  occurrences-add_watch q path in_modify ws,
  occurrences-remove_watch q path ws,
)
