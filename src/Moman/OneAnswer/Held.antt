-- ===== src/Moman/OneAnswer/Held.antt =====
-- The invariant on answers, where a handler holds a callback that it has still to call.
use kekmonitors_cpp.Prelude.{ℕ, ◌+◌, ◌≤◌, ◌≡◌, Option, none, some, List, length, Map, arith}
use kekmonitors_cpp.Prelude.Outcome.{Outcome, done, throws, undefined}
use kekmonitors_cpp.Core.Codes.{MonitorOrScraper, monitor, scraper}
use kekmonitors_cpp.Msg.Response.{Response}
use kekmonitors_cpp.Server.{UnixServer}
use kekmonitors_cpp.Moman.State.{
  StoredObject, Callback, Completion, Pending, System, set_stored, start,
}
use kekmonitors_cpp.Moman.OneAnswer.Completing.{opens-same}
use kekmonitors_cpp.Moman.OneAnswer.Count.{
  held, direct_to, half_of, directs, halves, occurrences, waits, answers, opens, AreHalved,
  opens-le, AreHalved-le,
}

module _ {Json : Type 0} where
  -- What the connection was and can still be: accepted, read, answered.
  abbrev pub load :
      ℕ → (ℕ → ℕ) → (ℕ → ℕ) → List (Completion Json) → List (ℕ × Response Json) → UnixServer → ℕ
  load c h d ks rs server =
      waits c server.accepting + occurrences c server.reading + answers c rs + d c + opens c h 0 ks

  -- `h` and `d` count the callbacks that are held, by completion and by connection.
  pub record Counts (L B h d : ℕ → ℕ) (ks : List (Completion Json)) (rs : List (ℕ × Response Json))
      (server : UnixServer) : Type 0 where
    pub kept : (c : ℕ) → L c ≤ load c h d ks rs server
    pub once : (c : ℕ) → load c h d ks rs server ≤ B c
    pub fresh : (c : ℕ) → server.next_connection ≤ c → load c h d ks rs server ≡ 0
    pub halved : AreHalved h 0 ks
    pub unposted : (i : ℕ) → length ks ≤ i → h i ≡ 0
    pub room : (c : ℕ) → server.next_connection ≤ c → 1 ≤ B c

  abbrev pub halves_at : Option Callback → System Json → ℕ → ℕ
  halves_at e s i = half_of i e + halves i s.pending

  abbrev pub directs_at : Option Callback → System Json → ℕ → ℕ
  directs_at e s c = direct_to c e + directs c s.pending

  -- The callback and those of the pending operations answer no connection twice.
  abbrev pub Held : (ℕ → ℕ) → (ℕ → ℕ) → Option Callback → System Json → Type 0
  Held L B e s = Counts L B (halves_at e s) (directs_at e s) s.completions s.replies s.server

  pub Counts-same :
      {L B h h' d d' : ℕ → ℕ} {ks : List (Completion Json)} {rs : List (ℕ × Response Json)}
      {server : UnixServer}
      → ((i : ℕ) → h' i ≡ h i)
      → ((c : ℕ) → d' c ≡ d c)
      → Counts L B h d ks rs server
      → Counts L B h' d' ks rs server
  Counts-same {L} {B} {h} {h'} {d} {d'} {ks} {rs} {server} p q n =
      let open_same = λ (c : ℕ). opens-same h h' c 0 ks (λ j _ _. p j) in
      record {
        kept = λ c. omega (arith, q c, n.kept c, open_same c);
        once = λ c. omega (arith, q c, n.once c, open_same c);
        fresh = λ c f. omega (arith, q c, n.fresh c f, open_same c);
        halved = AreHalved-le h h' 0 ks (λ j _ _. omega (arith, p j)) n.halved;
        unposted = λ i f. omega (arith, p i, n.unposted i f);
        room = n.room;
      }

  -- A handler that does not call its callback answers nobody, where none must be answered.
  pub Held-drop :
      {L B : ℕ → ℕ} (e : Option Callback) (s : System Json)
      → ((c : ℕ) → L c ≡ 0)
      → Held L B e s
      → Held L B none s
  Held-drop e s loss n =
      let h = halves_at e s in
      let h' = halves_at none s in
      let less = λ (c : ℕ). opens-le c h h' 0 s.completions (λ j _ _. omega arith) in
      record {
        kept = λ c. omega (arith, loss c);
        once = λ c. omega (arith, n.once c, less c);
        fresh = λ c f. omega (arith, n.fresh c f, less c);
        halved = AreHalved-le h h' 0 s.completions (λ j _ _. omega arith) n.halved;
        unposted = λ i f. omega (arith, n.unposted i f);
        room = n.room;
      }

  -- It may pass it on to an operation that it starts.
  pub Held-start :
      {L B : ℕ → ℕ} (p : Pending) (s : System Json)
      → Held L B (held p) s
      → Held L B none (start p s)
  Held-start p s n = Counts-same (λ i. omega arith) (λ c. omega arith) n

  -- The stored objects have no part in it.
  pub Held-set_stored :
      {L B : ℕ → ℕ} (e : Option Callback) (m : MonitorOrScraper) (map : Map StoredObject)
      (s : System Json)
      → Held L B e s
      → Held L B e (set_stored m map s)
  Held-set_stored e monitor map s n = n
  Held-set_stored e scraper map s n = n

  pub Held-start_stored :
      {L B : ℕ → ℕ} (p : Pending) (m : MonitorOrScraper) (map : Map StoredObject) (s : System Json)
      → Held L B (held p) s
      → Held L B none (start p (set_stored m map s))
  Held-start_stored p m map s n =
      Held-start p (set_stored m map s) (Held-set_stored (held p) m map s n)

  -- A handler that returns has called its callback or passed it on, or drops it; one that throws has
  -- done neither.
  abbrev pub Answered : (ℕ → ℕ) → (ℕ → ℕ) → Callback → Outcome (System Json) → Type 0
  Answered L B cb (done s) = Held L B none s
  Answered L B cb (throws e s) = Held L B (some cb) s
  Answered L B cb undefined = Unit
