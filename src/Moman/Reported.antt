-- ===== src/Moman/Reported.antt =====
-- `onGetStatus` of src/bin/moman/callbacks.cpp in the states of the event loop.
use kekmonitors_cpp.Prelude.{ℕ, String, ◌≡◌, refl, none, some, [], ◌∷◌, Map, find}
use kekmonitors_cpp.Prelude.Outcome.{done}
use kekmonitors_cpp.Core.Bimap.{BimapApi}
use kekmonitors_cpp.Core.Codes.{MonitorOrScraper}
use kekmonitors_cpp.Json.{JsonApi}
use kekmonitors_cpp.Msg.Response.{Response}
use kekmonitors_cpp.Moman.State.{StoredObject, direct, System, stored}
use kekmonitors_cpp.Moman.Reply.{write_response, call_back}
use kekmonitors_cpp.Moman.Status.{status_response, on_get_status}
use kekmonitors_cpp.Moman.Start.{StartWorld, init}
use kekmonitors_cpp.Moman.Loop.{Reach}
use kekmonitors_cpp.Moman.Report.{IsTable, process_entry, socket_entry, status_response_lem}
use kekmonitors_cpp.Moman.Invariant.Entries.{All, IsStored, IsDistinct}
use kekmonitors_cpp.Moman.Invariant.Base.{AreStored-stored}
use kekmonitors_cpp.Moman.Invariant.Rounds.{Reach-init-Inv}

IsTable-of : (m : Map StoredObject) → All IsStored m → IsDistinct m → IsTable m
IsTable-of [] a d = tt
IsTable-of ((k, obj) ∷ m) a d = (a.0.named, d.0, IsTable-of m a.1 d.1)

-- The response's payload has the processes and the sockets of the map, under their class names, and
-- nothing else.
abbrev pub Reports :
    {Json : Type 0} → ⦃J : JsonApi Json⦄ → Map StoredObject → Response Json → Type 0
Reports {Json} ⦃J⦄ m r =
    (processes : Json) × (sockets : Json) × (J.at r.payload "monitored_processes" ≡ some processes)
    × (J.at r.payload "monitored_sockets" ≡ some sockets)
    × ((k : String) → J.at processes k ≡ process_entry (find k m) none)
    × ((k : String) → J.at sockets k ≡ socket_entry (find k m) none)

module _ {Json M : Type 0} ⦃J : JsonApi Json⦄ ⦃b : BimapApi M⦄ (errors : M) where
  -- In every state that the event loop reaches from the one that the constructor leaves, `onGetStatus`
  -- for a client's connection writes one response and changes nothing else. The response's payload has
  -- two entries, of which the first one has for each class name that is stored the process, the
  -- second one the socket, and nothing for any other name.
  pub on_get_status-Reports :
      {t : System Json} (w : StartWorld)
      → Reach errors (init w) t
      → (m : MonitorOrScraper) (c : ℕ)
      → (r : Response Json) × (on_get_status errors m (direct c) t ≡ done (write_response c r t))
        × Reports (stored m t) r
  unfolding on_get_status call_back
  on_get_status-Reports {t} w reach m c =
      let a = AreStored-stored m t (Reach-init-Inv errors w reach) in
      (
        status_response (stored m t),
        refl,
        status_response_lem (stored m t) (IsTable-of (stored m t) a.entries a.distinct),
      )
