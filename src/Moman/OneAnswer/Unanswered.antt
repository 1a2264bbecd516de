-- ===== src/Moman/OneAnswer/Unanswered.antt =====
-- What is promised to a connection, from one state to another.
use kekmonitors_cpp.Prelude.{
  ℕ, ◌≤◌, ◌<◌, ◌≡◌, true, none, ◌==◌, arith, if◌then◌else◌, Bool-cases, inl, inr, subst, false,
  refl,
}
use kekmonitors_cpp.Prelude.Outcome.{done}
use kekmonitors_cpp.Core.Bimap.{BimapApi}
use kekmonitors_cpp.Json.{JsonApi}
use kekmonitors_cpp.Moman.State.{System}
use kekmonitors_cpp.Moman.Start.{StartWorld, init}
use kekmonitors_cpp.Moman.Loop.{World, Event, handle, Reach}
use kekmonitors_cpp.Moman.OneAnswer.Count.{answers}
use kekmonitors_cpp.Moman.OneAnswer.Held.{load, halves_at, directs_at, Held}
use kekmonitors_cpp.Moman.OneAnswer.Losses.{none_each, one_each, Leaves, gives_up}
use kekmonitors_cpp.Moman.OneAnswer.Rounds.{Held-handle, Reach-Held, Reach-init-Held}

-- How often the connection was or can still be answered: whether it is waited for or read, the
-- answers, and the callbacks and completions that are to answer it.
abbrev pub promised : {Json : Type 0} → ℕ → System Json → ℕ
promised c s = load c (halves_at none s) (directs_at none s) s.completions s.replies s.server

-- A bound for the connection `c`, and another for the rest.
abbrev bound_at : ℕ → ℕ → ℕ → ℕ → ℕ
bound_at c bound rest d = if d == c then bound else rest

module _ {Json : Type 0} where
  -- A connection that is known is tracked exactly.
  pub Held-exact :
      (s : System Json) (c : ℕ)
      → Held none_each one_each none s
      → c < s.server.next_connection
      → Held (bound_at c (promised c s) 0) (bound_at c (promised c s) 1) none s
  Held-exact s c n known =
      let self : (c == c) ≡ true = ground arith in
      let exact : (d : ℕ)
          → (bound_at c (promised c s) 0 d ≤ promised d s)
            × (promised d s ≤ bound_at c (promised c s) 1 d) =
        λ d. elim (Bool-cases (d == c)) [
          | inl hit ↦
              let same : c ≡ d = ground (arith, hit) in
              subst
                (λ i.
                  (bound_at c (promised c s) 0 i ≤ promised i s)
                  × (promised i s ≤ bound_at c (promised c s) 1 i))
                same (rw self (omega arith, omega arith))
          | inr miss ↦ rw miss (omega arith, n.once d)
        ] in
      record {
        kept = λ d. (exact d).0;
        once = λ d. (exact d).1;
        fresh = n.fresh;
        halved = n.halved;
        unposted = n.unposted;
        room = λ d f. ground (arith, known, f);
      }

  pub promised-exact :
      (s t : System Json) (c : ℕ)
      → Held (bound_at c (promised c s) 0) (bound_at c (promised c s) 1) none t
      → promised c t ≡ promised c s
  promised-exact s t c n =
      let self : (c == c) ≡ true = ground arith in ground (arith, n.kept c, n.once c, self)

module _ {Json M : Type 0} ⦃J : JsonApi Json⦄ ⦃b : BimapApi M⦄ (errors : M) where
  pub promised-le :
      {s t : System Json} (w : StartWorld)
      → Reach errors (init w) s
      → Reach errors s t
      → (c : ℕ) → c < s.server.next_connection
      → promised c t ≤ promised c s
  promised-le {s} {t} w past future c known =
      let n = Held-exact s c (Reach-init-Held errors w past) known in
      let start : Held none_each (bound_at c (promised c s) 1) none s = record {
        kept = λ d. omega arith;
        once = n.once;
        fresh = n.fresh;
        halved = n.halved;
        unposted = n.unposted;
        room = n.room;
      } in
      let self : (c == c) ≡ true = ground arith in
      ground (arith, (Reach-Held errors (λ d. refl) future start).once c, self)

  -- A round that gives up no connection keeps what is promised to those that are known.
  pub handle-promised :
      {s t : System Json} (w : StartWorld)
      → Reach errors (init w) s
      → (v : World) (e : Event Json) → gives_up e s ≡ false
      → handle errors v e s ≡ done t
      → (c : ℕ) → c < s.server.next_connection
      → promised c t ≡ promised c s
  handle-promised {s} {t} w past v e keeps q c known =
      let n = Held-exact s c (Reach-init-Held errors w past) known in
      let after = Held-handle errors v e s (λ h. absurd (ground (arith, h, keeps))) n in
      promised-exact s t c (
        subst (Leaves (Held (bound_at c (promised c s) 0) (bound_at c (promised c s) 1) none)) q
          after)

  -- From a state that the event loop reaches, a connection that the server has made, that is neither
  -- waited for nor read, was not answered, and that no callback and no completion is to answer, is
  -- not answered in any state that follows.
  pub never_answered :
      {s t : System Json} (w : StartWorld)
      → Reach errors (init w) s
      → Reach errors s t
      → (c : ℕ) → c < s.server.next_connection
      → promised c s ≡ 0
      → answers c t.replies ≡ 0
  never_answered w past future c known silent =
      omega (arith, silent, promised-le w past future c known)
