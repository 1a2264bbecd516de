-- ===== src/Moman/OneAnswer/Served.antt =====
-- The answer of a client whose command is being read, where no round gives up a connection.
use kekmonitors_cpp.Prelude.{ℕ, suc, ◌<◌, ◌≡◌, refl, false, none, List, [], ◌∷◌, arith, subst}
use kekmonitors_cpp.Prelude.Outcome.{done}
use kekmonitors_cpp.Core.Bimap.{BimapApi}
use kekmonitors_cpp.Json.{JsonApi}
use kekmonitors_cpp.Moman.State.{Completion, System}
use kekmonitors_cpp.Moman.Start.{StartWorld, init}
use kekmonitors_cpp.Moman.Loop.{World, Event, handle, MayHappen, Reach}
use kekmonitors_cpp.Moman.OneAnswer.Count.{answers, occurrences, waits, opens}
use kekmonitors_cpp.Moman.OneAnswer.Held.{halves_at, directs_at, Held}
use kekmonitors_cpp.Moman.OneAnswer.Losses.{Leaves, gives_up}
use kekmonitors_cpp.Moman.OneAnswer.Rounds.{Held-handle, Reach-init-Held}
use kekmonitors_cpp.Moman.OneAnswer.Unanswered.{promised, Held-exact, promised-exact}

module _ {Json M : Type 0} ⦃J : JsonApi Json⦄ ⦃b : BimapApi M⦄ (errors : M) where
  -- What the loop reaches by rounds that give up no connection.
  pub data Serves (s : System Json) : System Json → Type 0 where
    idle : Serves s s
    serve :
        {t u : System Json}
        → Serves s t
        → (w : World) (e : Event Json) → MayHappen t e
        → gives_up e t ≡ false
        → handle errors w e t ≡ done u
        → Serves s u

  Serves-Held : {L B : ℕ → ℕ} {s t : System Json} → Serves s t → Held L B none s → Held L B none t
  Serves-Held idle n = n
  Serves-Held {L} {B} (serve {t} before w e may keeps q) n =
      subst (Leaves (Held L B none)) q
        (Held-handle errors w e t (λ h. absurd (ground (arith, h, keeps))) (Serves-Held before n))

-- Without halves to come no completion is open.
opens-none :
    {Json : Type 0} (c : ℕ) (h : ℕ → ℕ) (i : ℕ) (ks : List (Completion Json))
    → ((j : ℕ) → h j ≡ 0)
    → opens c h i ks ≡ 0
opens-none c h i [] zero = refl
opens-none c h i (k ∷ ks) zero = ground (arith, zero i, opens-none c h (suc i) ks zero)

module _ {Json M : Type 0} ⦃J : JsonApi Json⦄ ⦃b : BimapApi M⦄ (errors : M) where
  -- A client whose command is being read in a state that the event loop reaches: where no round that
  -- follows gives up a connection (by an error of its accept or its read, or in the handler of a
  -- cancelled wait of `onAdd` whose class name is stored), the client was answered exactly once as
  -- soon as no operation is pending and its connection is neither read nor waited for.
  pub served_once :
      {s t : System Json} (w : StartWorld)
      → Reach errors (init w) s
      → Serves errors s t
      → (c : ℕ) → occurrences c s.server.reading ≡ 1
      → t.pending ≡ []
      → occurrences c t.server.reading ≡ 0
      → waits c t.server.accepting ≡ 0
      → answers c t.replies ≡ 1
  served_once {s} {t} w past served c read rest unread unwaited =
      let n = Reach-init-Held errors w past in
      let known : c < s.server.next_connection = ground (arith, n.fresh c, read) in
      let once : promised c s ≡ 1 = omega (arith, n.once c, read) in
      let same = promised-exact s t c (Serves-Held errors served (Held-exact s c n known)) in
      let no_half : (j : ℕ) → halves_at none t j ≡ 0 = λ j. rw rest refl in
      let no_direct : directs_at none t c ≡ 0 = rw rest refl in
      let closed = opens-none c (halves_at none t) 0 t.completions no_half in
      omega (arith, once, same, no_direct, closed, unread, unwaited)
