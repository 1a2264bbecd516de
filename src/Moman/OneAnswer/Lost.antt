-- ===== src/Moman/OneAnswer/Lost.antt =====
-- A cancelled wait of `onAdd` (src/bin/moman/callbacks.cpp) whose class name is stored again.
use kekmonitors_cpp.Prelude.{
  ℕ, ◌<◌, ◌≡◌, refl, String, true, false, some, List, Map, find, assign, get_elem?, remove_at, ◌==◌,
  arith,
}
use kekmonitors_cpp.Prelude.Outcome.{done}
use kekmonitors_cpp.Core.Bimap.{BimapApi}
use kekmonitors_cpp.Core.Codes.{MonitorOrScraper, monitor, scraper, operation_aborted, is_error}
use kekmonitors_cpp.Json.{JsonApi}
use kekmonitors_cpp.Moman.State.{
  StoredObject, Pending, add_wait, direct, System, stored, set_stored,
}
use kekmonitors_cpp.Moman.Add.{add_cancelled, on_add_timer}
use kekmonitors_cpp.Moman.Start.{StartWorld, init}
use kekmonitors_cpp.Moman.Loop.{World, Ending, ends, resume, handle, MayHappen, Reach, next, step}
use kekmonitors_cpp.Moman.Invariant.Base.{IsStored-find}
use kekmonitors_cpp.Moman.Invariant.Rounds.{Reach-init-Inv}
use kekmonitors_cpp.Moman.OneAnswer.Count.{answers}
use kekmonitors_cpp.Moman.OneAnswer.Held.{Held}
use kekmonitors_cpp.Moman.OneAnswer.Losses.{none_each, one_each}
use kekmonitors_cpp.Moman.OneAnswer.Serving.{Held-take}
use kekmonitors_cpp.Moman.OneAnswer.Rounds.{Reach-init-Held}
use kekmonitors_cpp.Moman.OneAnswer.Unanswered.{promised, never_answered}

module _ {Json : Type 0} where
  stored-pending :
      (m : MonitorOrScraper) (l : List Pending) (s : System Json)
      → stored m (record s { pending = l }) ≡ stored m s
  stored-pending monitor l s = refl
  stored-pending scraper l s = refl

  promised-set_stored :
      (c : ℕ) (m : MonitorOrScraper) (map : Map StoredObject) (s : System Json)
      → promised c (set_stored m map s) ≡ promised c s
  promised-set_stored c monitor map s = refl
  promised-set_stored c scraper map s = refl

  server-set_stored :
      (m : MonitorOrScraper) (map : Map StoredObject) (s : System Json)
      → (set_stored m map s).server ≡ s.server
  server-set_stored monitor map s = refl
  server-set_stored scraper map s = refl

  -- The n-th operation is taken off the list, and the object for the class name is not being added any
  -- more.
  abbrev pub without_addition :
      ℕ → MonitorOrScraper → String → StoredObject → System Json → System Json
  without_addition n m k obj s =
      let taken = record s { pending = remove_at s.pending n } in
      set_stored m (assign k (record obj { is_being_added = false }) (stored m taken)) taken

  -- The client whose callback is held and that is dropped has nothing else to come.
  promised-drop :
      (c : ℕ) (s : System Json)
      → Held none_each one_each (some (direct c)) s
      → (c < s.server.next_connection) × (promised c s ≡ 0)
  promised-drop c s n =
      let self : (c == c) ≡ true = ground arith in
      (ground (arith, self, n.fresh c, n.once c), ground (arith, self, n.once c))

module _ {Json M : Type 0} ⦃J : JsonApi Json⦄ ⦃b : BimapApi M⦄ (errors : M) where
  on_add_timer-stored :
      (m : MonitorOrScraper) (k : String) (c : ℕ) (v : World) (s : System Json) (obj : StoredObject)
      → find k (stored m s) ≡ some obj
      → obj.confirm_added ≡ false
      → on_add_timer errors operation_aborted m k (direct c) v.running s
        ≡ done (set_stored m (assign k (record obj { is_being_added = false }) (stored m s)) s)
  unfolding on_add_timer add_cancelled is_error
  on_add_timer-stored m k c v s obj e f = rw (e, add_cancelled) (rw f refl)

  -- In a state that the event loop reaches from the one that the constructor leaves: if the wait of an
  -- `onAdd` for a client ends because its timer was cancelled, while its class name is stored, then
  -- the round only takes back the mark that the stored object is being added, and in no state that
  -- follows was the client answered.
  pub cancelled-stored :
      {s t : System Json} (w : StartWorld)
      → Reach errors (init w) s
      → (v : World) (n timer : ℕ) (m : MonitorOrScraper) (k : String) (c : ℕ) (e : Ending Json)
        (obj : StoredObject)
      → MayHappen s (ends n e)
      → get_elem? s.pending n ≡ some (add_wait timer m k (direct c))
      → e.error ≡ operation_aborted
      → find k (stored m s) ≡ some obj
      → Reach errors (without_addition n m k obj s) t
      → (handle errors v (ends n e) s ≡ done (without_addition n m k obj s))
        × (answers c t.replies ≡ 0)
  unfolding handle resume
  cancelled-stored {s} w past v n timer m k c e obj may q aborted found future =
      let taken = record s { pending = remove_at s.pending n } in
      let map = assign k (record obj { is_being_added = false }) (stored m taken) in
      let after = without_addition n m k obj s in
      let at : find k (stored m taken) ≡ some obj =
        rw (stored-pending m (remove_at s.pending n) s) found in
      let old = IsStored-find m k obj s (Reach-init-Inv errors w past) found in
      let round : handle errors v (ends n e) s ≡ done after =
        rw (q, handle) (rw aborted (on_add_timer-stored m k c v taken obj at old.unconfirmed)) in
      let dropped =
        promised-drop c taken
          (Held-take n (add_wait timer m k (direct c)) s q (Reach-init-Held errors w past)) in
      let known : c < after.server.next_connection = rw (server-set_stored m map taken) dropped.0 in
      let silent : promised c after ≡ 0 = rw (promised-set_stored c m map taken) dropped.1 in
      (
        round,
        never_answered errors w (next past (step v (ends n e) may round)) future c known silent,
      )
