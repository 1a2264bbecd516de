-- ===== src/Moman/Watches/Refinement.antt =====
-- `onInotifyUpdate` of src/bin/moman/moman.cpp against the set of watched paths.
use kekmonitors_cpp.Prelude.{
  ◌≡◌, String, true, false, not, ◌&&◌, length, ltb, none, some, List, [], ◌∷◌, str_eq,
  if◌then◌else◌,
}
use kekmonitors_cpp.Prelude.Outcome.{Outcome, done}
use kekmonitors_cpp.Json.{JsonApi}
use kekmonitors_cpp.Moman.State.{System}
use kekmonitors_cpp.Moman.Watcher.{WatcherWorld, InotifyEvent, full_event_path, is_erased}
use kekmonitors_cpp.Moman.Watches.{Paths, paths_of, config_spec, IsUnique, IsNew}
use kekmonitors_cpp.Moman.Watches.Leaves.{IsInFolder}

-- What one event, and a list of them, do to the set of watched paths; those of the folder of
-- sockets do nothing.
unfoldable pub event_spec : String → InotifyEvent → Paths → Paths
event_spec socket_path event paths = elim event.watch [
  | none ↦ paths
  | some event_path ↦
      if not event.got_event
      then paths
      else if str_eq event_path socket_path
      then paths
      else config_spec event.mask (full_event_path event_path event.name) event.name paths
]

unfoldable pub events_spec : String → List InotifyEvent → Paths → Paths
unfolding event_spec
events_spec socket_path [] paths = paths
events_spec socket_path (event ∷ events) paths =
    events_spec socket_path events (event_spec socket_path event paths)

-- The paths that left the set so far.
unfoldable pub gone_spec : InotifyEvent → Paths → Paths → List String → List String
gone_spec event before after gone = elim event.watch [
  | none ↦ gone
  | some event_path ↦
      let path = full_event_path event_path event.name in
      if before path && not (after path) then path ∷ gone else gone
]

module _ {Json : Type 0} (w : WatcherWorld Json) where
  -- Unless the event's watch is the one of the sockets, its path has a folder, `Add` and `Remove`
  -- return for it, and if it is a folder that was created, it was not watched.
  abbrev pub IsExpectedAt : InotifyEvent → Paths → String → Type 0
  IsExpectedAt event paths event_path =
      let path = full_event_path event_path event.name in
      str_eq event_path w.socket_path ≡ false
      → IsInFolder path
        × (w.adds path ≡ true)
        × (w.removes path ≡ true)
        × IsNew event.mask path paths

  -- An event has a watch, and is expected at its path.
  abbrev pub IsExpected : InotifyEvent → Paths → Type 0
  IsExpected event paths =
      (event_path : String) × (event.watch ≡ some event_path) × IsExpectedAt event paths event_path

  -- Each event is expected, and its watch has not left the set before it; `gone` has what left.
  abbrev pub AreExpected : List String → List InotifyEvent → Paths → Type 0
  AreExpected gone [] paths = Unit
  AreExpected gone (event ∷ events) paths =
      let after = event_spec w.socket_path event paths in
      IsExpected event paths
      × (is_erased event gone ≡ false)
      × AreExpected (gone_spec event paths after gone) events after

module _ {Json : Type 0} ⦃J : JsonApi Json⦄ (w : WatcherWorld Json) where
  -- The watches that are left are unique, they are those of the specification, and the list got
  -- shorter exactly if the path left the set.
  Refines : String → System Json → Paths → Outcome (System Json) → Type 0
  Refines path s paths o =
      (t : System Json) × (o ≡ done t)
      × IsUnique t.watches
      × (paths_of t.watches ≡ paths)
      × (ltb (length t.watches) (length s.watches) ≡ paths_of s.watches path && not (paths path))
