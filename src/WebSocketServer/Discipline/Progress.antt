-- ===== src/WebSocketServer/Discipline/Progress.antt =====
-- What the writes of a session come to, where none fails.
use uni_serve_libhttp.Common.{
  ℕ, zero, suc, ◌≡◌, refl, sym, ap, subst, ◌∙◌, false, List, [], ◌∷◌, ◌++◌, arith, Str, length,
}
use mathlib.Core.List.{append-nil}
use uni_serve_libhttp.WebSocketServer.{
  Session, Server, change, after_write, front, pop_front, on_write,
}
use uni_serve_libhttp.WebSocketServer.Queue.{
  IsOrderly, pop_front-front, after_write-send_queue, after_write-single, after_write-log,
  after_write-IsFifo,
}
use uni_serve_libhttp.WebSocketServer.Steps.{Step, wrote, Reach, here, next, write_done}
use uni_serve_libhttp.WebSocketServer.Discipline.Fifo.{AreFifo}

after_write-IsOrderly : (s : Session) → IsOrderly s → IsOrderly (after_write (write_done false s))
after_write-IsOrderly s k = record {
  fifo = after_write-IsFifo s k.single k.fifo;
  single =
      after_write-single (write_done false s)
        (ap pop_front k.single ∙ pop_front-front s.send_queue);
}

module _ {W : Type 0} where
  -- `n` times, the outstanding write of the session succeeds.
  pub drain : ℕ → ℕ → Server W → Server W
  drain h zero v = v
  drain h (suc n) v = drain h n (on_write h false (change h (write_done false) v))

  written_session :
      (h : ℕ) (v : Server W)
      → (on_write h false (change h (write_done false) v)).sessions h
        ≡ after_write (write_done false (v.sessions h))
  unfolding on_write
  written_session h v = grind arith

  -- A step in front of a run.
  Reach-first : {u v w : Server W} → Step u v → Reach v w → Reach u w
  Reach-first st here = next here st
  Reach-first st (next r t) = next (Reach-first st r) t

  -- What is to come of `v`, with `q` in the queue of the session.
  abbrev IsDrained : ℕ → Server W → Server W → Type 0
  IsDrained h v v' =
      Reach v v'
      × ((v'.sessions h).written ≡ (v.sessions h).accepted)
      × ((v'.sessions h).send_queue ≡ [])

  drain-IsDrained :
      (q : List Str) (h : ℕ) (v : Server W)
      → (v.sessions h).send_queue ≡ q
      → IsOrderly (v.sessions h)
      → IsDrained h v (drain h (length q) v)
  unfolding drain
  drain-IsDrained [] h v e k = (
    here,
    sym (k.fifo ∙ (ap (◌++◌ (v.sessions h).written) e ∙ append-nil (v.sessions h).written)),
    e,
  )
  drain-IsDrained (m ∷ q) h v e k =
      let u = on_write h false (change h (write_done false) v) in
      let s = v.sessions h in
      let same = written_session h v in
      let k' : IsOrderly (u.sessions h) = subst IsOrderly (sym same) (after_write-IsOrderly s k) in
      let queued : (u.sessions h).send_queue ≡ q =
        ap (λ t. t.send_queue) same
        ∙ (after_write-send_queue (write_done false s) ∙ ap pop_front e) in
      let (r, w, z) = drain-IsDrained q h u queued k' in
      (
        Reach-first (wrote h false m [] (k.single ∙ ap front e) refl) r,
        w ∙ (ap (λ t. t.accepted) same ∙ (after_write-log (write_done false s)).0),
        z,
      )

  -- No message is stuck: where the messages of a session are in order, and the one at the front of
  -- its queue is being written, as many steps of the server in which its write succeeds as there are
  -- queued messages lead to a state in which everything that `send` was called with for it is
  -- written, in order, and nothing is queued.
  pub drain_lem :
      (h : ℕ) (v : Server W)
      → AreFifo v
      → (v.sessions h).writes ≡ front (v.sessions h).send_queue
      → let v' = drain h (length (v.sessions h).send_queue) v in
        Reach v v'
        × ((v'.sessions h).written ≡ (v.sessions h).accepted)
        × ((v'.sessions h).send_queue ≡ [])
  drain_lem h v f e = drain-IsDrained _ h v refl (record { fifo = f h; single = e })
