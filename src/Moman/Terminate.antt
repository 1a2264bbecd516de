-- ===== src/Moman/Terminate.antt =====
-- The end of `terminateProcesses`, and what it leaves.
use mathlib.Core.List.{append-nil, append_assoc}
use kekmonitors_cpp.Prelude.{
  ℕ, zero, suc, ◌+◌, ◌*◌, ◌≤◌, ◌<◌, ◌≡◌, Bool, none, some, List, [], ◌∷◌, ◌++◌, Map, length,
  is_some, arith, if◌then◌else◌, Option-cases, inl, inr, String,
}
use kekmonitors_cpp.Moman.State.{Process, StoredObject}
use kekmonitors_cpp.Moman.Processes.{terminate_loop, terminate_processes}

-- An entry without its process, if it has a socket.
abbrev pub survivor : String → StoredObject → Map StoredObject
survivor k obj = elim obj.process [
  | none ↦ (k, obj) ∷ []
  | some p ↦ if is_some obj.endpoint then (k, record obj { process = none }) ∷ [] else []
]

abbrev pub survivors : Map StoredObject → Map StoredObject
survivors [] = []
survivors ((k, obj) ∷ m) = survivor k obj ++ survivors m

-- The id of the object's process, if that runs.
abbrev pub victim : (Process → Bool) → StoredObject → List ℕ
victim running obj = elim obj.process [ none ↦ [] | some p ↦ if running p then p.pid ∷ [] else [] ]

abbrev pub victims : (Process → Bool) → Map StoredObject → List ℕ
victims running [] = []
victims running ((k, obj) ∷ m) = victim running obj ++ victims running m

-- The rounds of the loop for the entries.
abbrev rounds : Map StoredObject → ℕ
rounds [] = 0
rounds ((k, obj) ∷ m) = (if is_some obj.process then 2 else 1) + rounds m

rounds-le : (m : Map StoredObject) → rounds m ≤ 2 * length m
rounds-le [] = omega arith
rounds-le ((k, obj) ∷ m) = ground (arith, rounds-le m)

terminate_loop_lem :
    (fuel : ℕ) (running : Process → Bool) (before after : Map StoredObject) (killed : List ℕ)
    → rounds after < fuel
    → terminate_loop fuel running before after killed
      ≡ some (before ++ survivors after, killed ++ victims running after)
unfolding terminate_loop
terminate_loop_lem zero running before after killed h = absurd (omega arith)
terminate_loop_lem (suc fuel) running before [] killed h = simp append-nil
terminate_loop_lem (suc fuel) running before ((k, obj) ∷ after) killed h =
    elim (Option-cases obj.process) [
      | inl e ↦ ground (
        arith,
        terminate_loop_lem fuel running (before ++ (k, obj) ∷ []) after killed,
        append_assoc before ((k, obj) ∷ []) (survivors after),
      )
      | inr (p, e) ↦
          let bare = record obj { process = none } in
          ground (
            arith,
            terminate_loop_lem fuel running before after killed,
            terminate_loop_lem fuel running before after (killed ++ p.pid ∷ []),
            terminate_loop_lem fuel running before ((k, bare) ∷ after) killed,
            terminate_loop_lem fuel running before ((k, bare) ∷ after) (killed ++ p.pid ∷ []),
            append_assoc killed (p.pid ∷ []) (victims running after),
          )
    ]

-- `terminateProcesses` ends, with the entries that have a socket or no process, in their order and
-- without their processes, and has killed the running processes of the map and no others.
pub terminate_processes_lem :
    (running : Process → Bool) (m : Map StoredObject)
    → terminate_processes running m ≡ some (survivors m, victims running m)
unfolding terminate_processes
terminate_processes_lem running m =
    terminate_loop_lem (suc (2 * length m)) running [] m [] (omega (arith, rounds-le m))
