-- ===== src/Moman/Invariant/Handlers.antt =====
-- The other handlers and the invariant.
use kekmonitors_cpp.Prelude.{
  ℕ, String, ◌≡◌, refl, Bool, none, some, [], ◌∷◌, ◌++◌, Map, ◌==◌, find, is_some, arith,
  if◌then◌else◌, Bool-cases, Option-cases, inl, inr,
}
use kekmonitors_cpp.Core.Bimap.{BimapApi}
use kekmonitors_cpp.Core.Codes.{MonitorOrScraper, operation_aborted, ErrorCode, is_error}
use kekmonitors_cpp.Json.{JsonApi}
use kekmonitors_cpp.Moman.State.{
  OnSuccess, confirm, register, Process, StoredObject, Callback, System, stored,
}
use kekmonitors_cpp.Moman.Terminate.{survivor, survivors, terminate_processes_lem}
use kekmonitors_cpp.Moman.Status.{shutdown}
use kekmonitors_cpp.Moman.Processes.{on_process_exit}
use kekmonitors_cpp.Moman.Sockets.{
  in_create, in_delete, parse_socket_name, socket_name_of, update_list,
  check_socket_and_update_list, on_verify_timer, verify_socket_is_communicating,
}
use kekmonitors_cpp.Moman.Invariant.Entries.{All, IsStored, AreStored, IsDistinct}
use kekmonitors_cpp.Moman.Invariant.Base.{
  Inv, Ensures, AreStored-stored, Inv-set_stored, Inv-assign, IsStored-find,
  AreStored-remove_stored_socket, AreStored-remove_stored_process,
}
use kekmonitors_cpp.Moman.Invariant.Answers.{Option-rule, if-rule, Inv-call_back}

module _ {Json : Type 0} where
  pub Inv-on_process_exit :
      (ec : ErrorCode) (m : MonitorOrScraper) (k : String) (s : System Json)
      → Inv s
      → Inv (on_process_exit ec m k s)
  unfolding on_process_exit
  Inv-on_process_exit ec m k s h = elim (Bool-cases (is_error ec)) [
    | inl e ↦ rw (e, on_process_exit) h
    | inr e ↦
        rw (e, on_process_exit)
          (Inv-set_stored m _ s h
            (AreStored-remove_stored_process k (stored m s) (AreStored-stored m s h)))
  ]

All-append :
    (P : String → StoredObject → Type 0) (l m : Map StoredObject)
    → All P l
    → All P m
    → All P (l ++ m)
All-append P [] m h k = k
All-append P ((j, v) ∷ l) m h k = (h.0, All-append P l m h.1 k)

survivor_of_none :
    (k : String) (obj : StoredObject) → obj.process ≡ none → survivor k obj ≡ (k, obj) ∷ []
survivor_of_none k obj e = ground arith

survivor_of_some :
    (k : String) (obj : StoredObject) (p : Process)
    → obj.process ≡ some p
    → survivor k obj
      ≡ (if is_some obj.endpoint then (k, record obj { process = none }) ∷ [] else [])
survivor_of_some k obj p e = ground arith

All-survivor : (k : String) (obj : StoredObject) → IsStored k obj → All IsStored (survivor k obj)
All-survivor k obj h = elim (Option-cases obj.process) [
  | inl e ↦ rw (survivor_of_none k obj e) (h, tt)
  | inr (p, e) ↦ elim (Bool-cases (is_some obj.endpoint)) [
    | inl kept ↦ rw (survivor_of_some k obj p e) (rw kept (ground (arith, h), tt))
    | inr gone ↦ rw (survivor_of_some k obj p e) (rw gone tt)
  ]
]

All-survivors : (m : Map StoredObject) → All IsStored m → All IsStored (survivors m)
All-survivors [] h = tt
All-survivors ((k, obj) ∷ m) h =
    All-append IsStored (survivor k obj) (survivors m) (All-survivor k obj h.0)
      (All-survivors m h.1)

pub find-survivors :
    (k : String) (m : Map StoredObject) → find k m ≡ none → find k (survivors m) ≡ none
unfolding find
find-survivors k [] h = refl
find-survivors k ((j, obj) ∷ m) h = ground (arith, find-survivors k m, h)

IsDistinct-survivors : (m : Map StoredObject) → IsDistinct m → IsDistinct (survivors m)
IsDistinct-survivors [] h = tt
IsDistinct-survivors ((k, obj) ∷ m) h =
    let rest : (find k (survivors m) ≡ none) × IsDistinct (survivors m) =
      (find-survivors k m h.0, IsDistinct-survivors m h.1) in
    elim (Option-cases obj.process) [
      | inl e ↦ rw (survivor_of_none k obj e) rest
      | inr (p, e) ↦ elim (Bool-cases (is_some obj.endpoint)) [
        | inl kept ↦ rw (survivor_of_some k obj p e) (rw kept rest)
        | inr gone ↦ rw (survivor_of_some k obj p e) (rw gone rest.1)
      ]
    ]

AreStored-survivors : (m : Map StoredObject) → AreStored m → AreStored (survivors m)
AreStored-survivors m h = record {
  entries = All-survivors m h.entries;
  distinct = IsDistinct-survivors m h.distinct;
}

module _ {Json : Type 0} where
  Inv-verify :
      (m : MonitorOrScraper) (path k : String) (next : OnSuccess) (connects : String → Bool)
      (s : System Json)
      → Inv s
      → Inv (verify_socket_is_communicating m path k next connects s)
  unfolding verify_socket_is_communicating
  Inv-verify m path k next connects s h = if-rule Inv (connects path) _ _ h (record {
    monitors = h.monitors;
    scrapers = h.scrapers;
    unverified = (tt, h.unverified);
    uncancelled = h.uncancelled;
  })

  Inv-update_list :
      (m : MonitorOrScraper) (path k : String) (mask : ℕ) (connects : String → Bool)
      (s : System Json)
      → Inv s
      → Inv (update_list m path k mask connects s)
  unfolding update_list
  Inv-update_list m path k mask connects s h =
      if-rule Inv (mask == in_create) _ _
        (Option-rule Inv (find k (stored m s)) _ _ (Inv-verify m path k register connects s h)
          (λ obj e.
            let old = IsStored-find m k obj s h e in
            let found =
              Inv-assign m k (record obj { endpoint = some path }) s h (ground (arith, old)) in
            if-rule Inv obj.is_being_added _ _ (Inv-verify m path k confirm connects _ found)
              found))
        (if-rule Inv (mask == in_delete) _ _
          (Inv-set_stored m _ s h
            (AreStored-remove_stored_socket k (stored m s) (AreStored-stored m s h)))
          h)

  pub Inv-check_socket_and_update_list :
      (path name : String) (mask : ℕ) (connects : String → Bool) (s : System Json)
      → Inv s
      → Inv (check_socket_and_update_list path name mask connects s)
  unfolding check_socket_and_update_list
  Inv-check_socket_and_update_list path name mask connects s h =
      Option-rule Inv (parse_socket_name (socket_name_of path name)) _ _ h
        (λ found _. Inv-update_list found.0 path found.1 mask connects s h)

  -- The wait on the timer that `verifySocketIsCommunicating` destroys does nothing.
  pub Inv-on_verify_timer :
      (ec : ErrorCode) (m : MonitorOrScraper) (path k : String) (next : OnSuccess)
      (connects : String → Bool) (s : System Json)
      → ec ≡ operation_aborted
      → Inv s
      → Inv (on_verify_timer ec m path k next connects s)
  unfolding on_verify_timer is_error
  Inv-on_verify_timer ec m path k next connects s e h = rw (e, on_verify_timer) h

module _ {Json M : Type 0} ⦃J : JsonApi Json⦄ ⦃b : BimapApi M⦄ (errors : M) where
  pub Inv-shutdown :
      (cb : Callback) (running : Process → Bool) (s : System Json)
      → Inv s
      → Ensures Inv (shutdown errors cb running s).0
  unfolding shutdown
  Inv-shutdown cb running s h =
      rw (terminate_processes_lem running s.monitors, shutdown)
        (rw (terminate_processes_lem running s.scrapers) (
          Inv-call_back errors cb _ _ (record {
            monitors = AreStored-survivors s.monitors h.monitors;
            scrapers = AreStored-survivors s.scrapers h.scrapers;
            unverified = h.unverified;
            uncancelled = h.uncancelled;
          })))
