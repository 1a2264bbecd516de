-- ===== src/Connection/Timeouts.antt =====
-- The ends of a reading, and what a late end does.
use kekmonitors_cpp.Prelude.{
  ℕ, suc, ◌+◌, ◌≤◌, ◌≡◌, refl, ◌⊎◌, ◌∷◌, Bool, true, false, length, arith, String, inl, inr,
}
use kekmonitors_cpp.Prelude.Outcome.{done, throws, system_error}
use kekmonitors_cpp.Core.Codes.{ErrorCode, success, operation_aborted, is_error}
use kekmonitors_cpp.Connection.{Connection, on_timeout, fill, is_read, new_connection}
use kekmonitors_cpp.Connection.Link.{
  Wait, no_wait, waiting, expired, cancelled, Read, reading, ended, handled, Link, cancel,
  close_read, async_read, on_wait_end, on_read_end, on_written, LinkStep, expires, arrives,
  times_out, gives_over, hands_on, LinkSteps, start, after,
}

-- How many ends and handlers are yet to come.
abbrev wait_left : Wait → ℕ
wait_left no_wait = 0
wait_left waiting = 2
wait_left expired = 1
wait_left cancelled = 1

abbrev read_left : Read → ℕ
read_left reading = 2
read_left (ended err text) = 1
read_left handled = 0

abbrev calls : Read → ℕ
calls handled = 1
calls _ = 0

-- A read under way has its wait; a wait is cancelled once the read is done with.
abbrev is_paired : Wait → Read → Bool
is_paired no_wait reading = false
is_paired no_wait _ = true
is_paired cancelled handled = true
is_paired cancelled _ = false
is_paired waiting _ = true
is_paired expired _ = true

-- No wait is under way or has expired.
abbrev is_stopped : Wait → Bool
is_stopped no_wait = true
is_stopped cancelled = true
is_stopped _ = false

module _ {A : Type 0} (hand : ErrorCode → Connection → A × ErrorCode) where
  -- Whether a step needs nothing from the other side.
  abbrev pub is_own : {l m : Link A} → LinkStep hand l m → Bool
  is_own (expires e) = true
  is_own (arrives err text e) = false
  is_own (times_out e) = true
  is_own (gives_over e) = true
  is_own (hands_on err text e) = true

  record LinkInv (n : ℕ) (l : Link A) : Type 0 where
    paired : is_paired l.wait l.read ≡ true
    counted : length l.called ≡ calls l.read
    bounded : n + wait_left l.wait + read_left l.read ≤ 4
    closed : l.connection.is_open ≡ false → l.wait ≡ no_wait

  LinkInv-step : (n : ℕ) (l m : Link A) → LinkStep hand l m → LinkInv n l → LinkInv (suc n) m
  unfolding on_wait_end on_read_end on_timeout close_read cancel is_error fill
  LinkInv-step n l m (expires e) h = record {
    paired = ground (arith, e, h.paired);
    counted = ground (arith, e, h.paired, h.counted);
    bounded = ground (arith, e, h.paired, h.bounded);
    closed = λ o. ground (arith, e, h.closed o);
  }
  LinkInv-step n l m (arrives err text e) h = record {
    paired = ground (arith, e, h.paired);
    counted = ground (arith, e, h.paired, h.counted);
    bounded = ground (arith, e, h.paired, h.bounded);
    closed = λ o. h.closed o;
  }
  LinkInv-step n l m (times_out e) h = record {
    paired = ground (arith, e, h.paired);
    counted = ground (arith, e, h.paired, h.counted);
    bounded = ground (arith, e, h.paired, h.bounded);
    closed = λ o. refl;
  }
  LinkInv-step n l m (gives_over e) h = record {
    paired = ground (arith, e, h.paired);
    counted = ground (arith, e, h.paired, h.counted);
    bounded = ground (arith, e, h.paired, h.bounded);
    closed = λ o. refl;
  }
  LinkInv-step n l m (hands_on err text e) h = record {
    paired = ground (arith, e, h.paired);
    counted = ground (arith, e, h.paired, h.counted);
    bounded = ground (arith, e, h.paired, h.bounded);
    closed = λ o. ground (arith, e, h.closed o);
  }

  LinkInv-start : LinkInv 0 async_read
  unfolding async_read new_connection
  LinkInv-start = record {
    paired = refl;
    counted = refl;
    bounded = omega arith;
    closed = λ o. absurd (ground (arith, o));
  }

  LinkSteps-LinkInv : {n : ℕ} {l : Link A} → LinkSteps hand async_read n l → LinkInv n l
  LinkSteps-LinkInv start = LinkInv-start
  LinkSteps-LinkInv (after {n} {m} {o} before last) =
      LinkInv-step n m o last (LinkSteps-LinkInv before)

  -- Where nothing can happen without the other side, the read is done with.
  next_step :
      (n : ℕ) (l : Link A) (w : Wait) (r : Read)
      → l.wait ≡ w
      → l.read ≡ r
      → LinkInv n l
      → ((m : Link A) × (st : LinkStep hand l m) × (is_own st ≡ true)) ⊎ (length l.called ≡ 1)
  next_step n l w (ended err text) p q h =
      inl (on_read_end hand err text l, hands_on err text q, refl)
  next_step n l w handled p q h = inr (ground (arith, q, h.counted))
  next_step n l waiting reading p q h = inl (record l { wait = expired }, expires p, refl)
  next_step n l expired reading p q h = inl (on_wait_end success l, times_out p, refl)
  next_step n l cancelled reading p q h = inl (on_wait_end operation_aborted l, gives_over p, refl)
  next_step n l no_wait reading p q h = absurd (ground (arith, p, q, h.paired))

  -- `asyncReadCmd` or `asyncReadResponse` on a new connection: whatever arrives and whenever, every
  -- history of its ends and handlers has at most four steps, in which the callback is called at most
  -- once; and in every state a further step can be taken that needs nothing to arrive, or the callback
  -- was called once.
  pub async_read-ends :
      (n : ℕ) (l : Link A)
      → LinkSteps hand async_read n l
      → (n ≤ 4)
        × (length l.called ≤ 1)
        × (((m : Link A) × (st : LinkStep hand l m) × (is_own st ≡ true)) ⊎ (length l.called ≡ 1))
  async_read-ends n l h =
      let inv = LinkSteps-LinkInv h in
      (
        omega (arith, inv.bounded),
        ground (arith, inv.counted),
        next_step n l l.wait l.read refl refl inv,
      )

  -- The read is done with, and no time-out will come.
  record IsSettled (l : Link A) : Type 0 where
    done_with : l.read ≡ handled
    stopped : is_stopped l.wait ≡ true
    opened : l.connection.is_open ≡ true

  IsSettled-step : (l m : Link A) → LinkStep hand l m → IsSettled l → IsSettled m
  unfolding on_wait_end on_read_end on_timeout close_read cancel is_error fill
  IsSettled-step l m (expires e) h = absurd (ground (arith, e, h.stopped))
  IsSettled-step l m (arrives err text e) h = absurd (ground (arith, e, h.done_with))
  IsSettled-step l m (times_out e) h = absurd (ground (arith, e, h.stopped))
  IsSettled-step l m (gives_over e) h = record {
    done_with = ground (arith, h.done_with, h.opened);
    stopped = refl;
    opened = h.opened;
  }
  IsSettled-step l m (hands_on err text e) h = absurd (ground (arith, e, h.done_with))

  LinkSteps-IsSettled :
      {l : Link A} {n : ℕ} {m : Link A} → LinkSteps hand l n m → IsSettled l → IsSettled m
  LinkSteps-IsSettled start h = h
  LinkSteps-IsSettled (after {n} {m} {o} before last) h =
      IsSettled-step m o last (LinkSteps-IsSettled before h)

  -- A message whose read ends well and is handled while the wait is under way: after anything that
  -- follows, the end of a write only closes the sending side and calls the
  -- callback with the write's error.
  pub on_written_in_time :
      {n k : ℕ} {l m : Link A}
      → LinkSteps hand async_read n l
      → (err : ErrorCode) (text : String) → l.wait ≡ waiting
      → l.read ≡ ended err text
      → is_read err ≡ true
      → LinkSteps hand (on_read_end hand err text l) k m
      → (e : ErrorCode) → on_written e m ≡ done (record m { sends = false }, e)
  unfolding on_written on_read_end cancel fill
  on_written_in_time {n} {k} {l} {m} before err text w r ok later e =
      let inv = LinkSteps-LinkInv before in
      let is_open : l.connection.is_open ≡ true = ground (arith, inv.closed, w) in
      let settled : IsSettled (on_read_end hand err text l) = record {
        done_with = refl;
        stopped = ground (arith, w, ok);
        opened = is_open;
      } in
      rw ((LinkSteps-IsSettled later settled).opened, on_written) refl

  -- If the read's end is handled after the timer expired and before the handler of the wait is called,
  -- the callback is called with the message all the same, then the handler of the wait closes the
  -- connection, and the end of a write throws.
  pub on_written_late :
      (l : Link A) (err : ErrorCode) (text : String) (e : ErrorCode)
      → l.wait ≡ expired
      → l.read ≡ ended err text
      → (handed : Link A) × (closed : Link A) × LinkStep hand l handed
        × LinkStep hand handed closed
        × (handed.called ≡ hand err (fill text l.connection) ∷ l.called)
        × (on_written e closed ≡ throws system_error (closed, e))
  unfolding on_written on_read_end on_wait_end on_timeout cancel is_error
  on_written_late l err text e w r =
      let handed = on_read_end hand err text l in
      let kept : handed.wait ≡ expired = ground (arith, w) in
      (handed, on_wait_end success handed, hands_on err text r, times_out kept, refl, refl)
