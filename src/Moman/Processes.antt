-- ===== src/Moman/Processes.antt =====
-- Objects that lose their process or their socket: `removeStoredSocket` and `removeStoredProcess`
-- of src/bin/moman/moman.hpp, `onProcessExit` and `terminateProcesses` of src/bin/moman/moman.cpp.
use kekmonitors_cpp.Prelude.{
  ℕ, zero, suc, ◌*◌, ◌++◌, length, String, Bool, Option, none, some, List, [], ◌∷◌, Map, find,
  assign, erase, is_some, if◌then◌else◌,
}
use kekmonitors_cpp.Core.Codes.{MonitorOrScraper, ErrorCode, is_error}
use kekmonitors_cpp.Moman.State.{Process, StoredObject, System, stored, set_stored}

-- Through the iterator of `k`.
unfoldable pub remove_stored_socket : String → Map StoredObject → Map StoredObject
remove_stored_socket k m = elim (find k m) [
  | none ↦ m
  | some obj ↦
      if is_some obj.process then assign k (record obj { endpoint = none }) m else erase k m
]

unfoldable pub remove_stored_process : String → Map StoredObject → Map StoredObject
remove_stored_process k m = elim (find k m) [
  | none ↦ m
  | some obj ↦
      if is_some obj.endpoint then assign k (record obj { process = none }) m else erase k m
]

-- The loop of `terminateProcesses`: the entries that the iterator has passed, those from it on, and
-- the ids of the processes killed so far. An entry that keeps its socket is visited once more.
unfoldable pub terminate_loop :
    ℕ
    → (Process → Bool)
    → Map StoredObject
    → Map StoredObject
    → List ℕ
    → Option (Map StoredObject × List ℕ)
terminate_loop zero running before after killed = none
terminate_loop (suc fuel) running before [] killed = some (before, killed)
terminate_loop (suc fuel) running before ((k, obj) ∷ after) killed = elim obj.process [
  | none ↦ terminate_loop fuel running (before ++ (k, obj) ∷ []) after killed
  | some p ↦
      let killed' = if running p then killed ++ p.pid ∷ [] else killed in
      elim obj.endpoint [
        | none ↦ terminate_loop fuel running before after killed'
        | some ep ↦
            terminate_loop fuel running before ((k, record obj { process = none }) ∷ after) killed'
      ]
]

-- `terminateProcesses`, with two rounds for each entry and one for the end.
unfoldable pub terminate_processes :
    (Process → Bool) → Map StoredObject → Option (Map StoredObject × List ℕ)
unfolding terminate_loop
terminate_processes running m = terminate_loop (suc (2 * length m)) running [] m []

module _ {Json : Type 0} where
  unfoldable pub on_process_exit : ErrorCode → MonitorOrScraper → String → System Json → System Json
  unfolding is_error remove_stored_process
  on_process_exit ec m class_name s =
      if is_error ec then s else set_stored m (remove_stored_process class_name (stored m s)) s
