-- ===== src/Moman/OneAnswer/Serving.antt =====
-- The server's connections and the pending operations, as the loop takes them up.
use kekmonitors_cpp.Prelude.{
  true, Bool-cases, inl, inr, ℕ, ◌≡◌, none, some, get_elem?, remove_at, arith,
}
use kekmonitors_cpp.Core.Codes.{ErrorCode, is_error}
use kekmonitors_cpp.Server.{on_connect, start_accepting, new_server}
use kekmonitors_cpp.Moman.State.{Pending, System, empty_system, direct}
use kekmonitors_cpp.Moman.OneAnswer.Count.{
  held, directs-remove_at, halves-remove_at, occurrences-remove_at,
}
use kekmonitors_cpp.Moman.OneAnswer.Held.{Counts-same, Held}
use kekmonitors_cpp.Moman.OneAnswer.Losses.{one_each, none_each}

module _ {L B : ℕ → ℕ} {Json : Type 0} where
  pub Held-on_connect :
      (err : ErrorCode) (c : ℕ) (s : System Json)
      → s.server.accepting ≡ some c
      → (is_error err ≡ true → (d : ℕ) → L d ≡ 0)
      → Held L B none s
      → Held L B none (record s { server = on_connect err c s.server })
  unfolding on_connect start_accepting is_error
  Held-on_connect err c s e loss n = record {
    kept = λ d. elim (Bool-cases (is_error err)) [
      | inl x ↦ omega (arith, loss x d)
      | inr ok ↦ ground (arith, n.kept d, e, ok)
    ];
    once = λ d. ground (arith, n.once d, n.fresh d, n.room d);
    fresh = λ d f. ground (arith, n.fresh d);
    halved = n.halved;
    unposted = n.unposted;
    room = λ d f. ground (arith, n.room d);
  }

  pub Held-read :
      (n : ℕ) (c : ℕ) (s : System Json)
      → get_elem? s.server.reading n ≡ some c
      → Held L B none s
      → Held L B
          (some (direct c))
          (record s { server = record s.server { reading = remove_at s.server.reading n } })
  Held-read n c s e h = record {
    kept = λ d. omega (arith, h.kept d, occurrences-remove_at d s.server.reading n c e);
    once = λ d. omega (arith, h.once d, occurrences-remove_at d s.server.reading n c e);
    fresh = λ d f. omega (arith, h.fresh d f, occurrences-remove_at d s.server.reading n c e);
    halved = h.halved;
    unposted = h.unposted;
    room = h.room;
  }

  pub Held-take :
      (n : ℕ) (p : Pending) (s : System Json)
      → get_elem? s.pending n ≡ some p
      → Held L B none s
      → Held L B (held p) (record s { pending = remove_at s.pending n })
  Held-take n p s e h =
      Counts-same (λ i. omega (arith, halves-remove_at i s.pending n p e))
        (λ c. omega (arith, directs-remove_at c s.pending n p e)) h

module _ {Json : Type 0} where
  pub Held-empty : Held {Json = Json} none_each one_each none empty_system
  unfolding empty_system new_server
  Held-empty = record {
    kept = λ d. omega arith;
    once = λ d. omega arith;
    fresh = λ d f. omega arith;
    halved = tt;
    unposted = λ i f. omega arith;
    room = λ d f. omega arith;
  }

  pub Held-start_accepting :
      (s : System Json)
      → Held none_each one_each none s
      → Held none_each one_each none (record s { server = start_accepting s.server })
  unfolding start_accepting
  Held-start_accepting s n = record {
    kept = λ d. omega arith;
    once = λ d. ground (arith, n.once d, n.fresh d, n.room d);
    fresh = λ d f. ground (arith, n.fresh d);
    halved = n.halved;
    unposted = n.unposted;
    room = λ d f. ground (arith, n.room d);
  }
