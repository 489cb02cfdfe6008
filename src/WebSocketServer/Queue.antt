-- ===== src/WebSocketServer/Queue.antt =====
-- The send queue of a session, over any interleaving of sends and completed writes.
use mathlib.Core.List.{append_assoc, append-nil}
use uni_serve_libhttp.Common.{
  ℕ, zero, suc, ◌≡◌, refl, sym, ap, ◌∙◌, false, List, [], ◌∷◌, ◌++◌, arith, Str, length,
}
use uni_serve_libhttp.WebSocketServer.{Session, send, after_write, front, pop_front}
use uni_serve_libhttp.WebSocketServer.Steps.{write_done}

-- `sends` is a call of `Session::send`, and `completes` the success of the oldest outstanding
-- write, which calls `onWrite`.
pub data Event : Type 0 where
  sends : Str → Event
  completes : Event

complete : List Str → Session → Session
complete [] s = s
complete (m ∷ rest) s = after_write (write_done false s)

pub step : Event → Session → Session
unfolding complete
step (sends m) s = send m s
step completes s = complete s.writes s

pub run : List Event → Session → Session
run [] s = s
run (e ∷ es) s = run es (step e s)

-- A session before any message.
abbrev pub idle : Session → Session
idle s = record s { accepted = []; written = []; send_queue = []; writes = [] }

-- What was written and what is queued make up what was accepted, in order.
abbrev pub IsFifo : Session → Type 0
IsFifo s = s.accepted ≡ s.written ++ s.send_queue

-- Besides, the outstanding writes are the message at the front of the queue: one at most, none only
-- where it is empty.
pub record IsOrderly (s : Session) : Type 0 where
  pub fifo : IsFifo s
  pub single : s.writes ≡ front s.send_queue

send-send_queue : (m : Str) (s : Session) → (send m s).send_queue ≡ s.send_queue ++ (m ∷ [])
unfolding send
send-send_queue m s = ground arith

pub send-single :
    (m : Str) (s : Session)
    → s.writes ≡ front s.send_queue
    → (send m s).writes ≡ front (send m s).send_queue
unfolding send
send-single m s e = ground arith

pub after_write-send_queue : (s : Session) → (after_write s).send_queue ≡ pop_front s.send_queue
unfolding after_write
after_write-send_queue s = ground arith

pub after_write-single :
    (s : Session) → s.writes ≡ [] → (after_write s).writes ≡ front (after_write s).send_queue
unfolding after_write
after_write-single s e = ground arith

send-accepted :
    (m : Str) (s : Session)
    → ((send m s).accepted ≡ s.accepted ++ (m ∷ [])) × ((send m s).written ≡ s.written)
unfolding send
send-accepted m s = ground arith

pub send-IsFifo : (m : Str) (s : Session) → IsFifo s → IsFifo (send m s)
send-IsFifo m s f =
    let (taken, same) = send-accepted m s in
    taken
    ∙ (ap (λ a. a ++ (m ∷ [])) f
        ∙ (append_assoc s.written s.send_queue (m ∷ [])
            ∙ (ap (◌++◌ s.written) (sym (send-send_queue m s))
                ∙ ap (λ w. w ++ (send m s).send_queue) (sym same))))

pub after_write-log :
    (s : Session) → ((after_write s).accepted ≡ s.accepted) × ((after_write s).written ≡ s.written)
unfolding after_write
after_write-log s = ground arith

queue_split : (w q : List Str) → (w ++ front (front q)) ++ pop_front q ≡ w ++ q
queue_split w [] = append-nil (w ++ [])
queue_split w (m ∷ q) = append_assoc w (m ∷ []) q

-- The success of a write of the message at the front.
pub after_write-IsFifo :
    (s : Session)
    → s.writes ≡ front s.send_queue
    → IsFifo s
    → IsFifo (after_write (write_done false s))
after_write-IsFifo s e f =
    let done = write_done false s in
    let (taken, same) = after_write-log done in
    taken
    ∙ (f
        ∙ (sym (queue_split s.written s.send_queue)
            ∙ (ap (λ x. (s.written ++ front x) ++ pop_front s.send_queue) (sym e)
                ∙ (ap (◌++◌ done.written) (sym (after_write-send_queue done))
                    ∙ ap (λ w. w ++ (after_write done).send_queue) (sym same)))))

pub pop_front-front : (q : List Str) → pop_front (front q) ≡ []
pop_front-front [] = refl
pop_front-front (m ∷ q) = refl

complete-IsOrderly :
    (w : List Str) (s : Session) → s.writes ≡ w → IsOrderly s → IsOrderly (complete w s)
unfolding complete
complete-IsOrderly [] s e v = v
complete-IsOrderly (m ∷ rest) s e v = record {
  fifo = after_write-IsFifo s v.single v.fifo;
  single =
      after_write-single (write_done false s)
        (ap pop_front v.single ∙ pop_front-front s.send_queue);
}

step-IsOrderly : (e : Event) (s : Session) → IsOrderly s → IsOrderly (step e s)
unfolding step
step-IsOrderly (sends m) s v = record {
  fifo = send-IsFifo m s v.fifo;
  single = send-single m s v.single;
}
step-IsOrderly completes s v = complete-IsOrderly s.writes s refl v

run-IsOrderly : (es : List Event) (s : Session) → IsOrderly s → IsOrderly (run es s)
unfolding run
run-IsOrderly [] s v = v
run-IsOrderly (e ∷ es) s v = run-IsOrderly es (step e s) (step-IsOrderly e s v)

-- From an idle session, after any interleaving of sends and completed writes: the messages written
-- and then those queued are the accepted ones in order, and the outstanding write is that of the
-- front of the queue, one at most, and none only where the queue is empty.
pub run-idle-IsOrderly : (s : Session) (es : List Event) → IsOrderly (run es (idle s))
run-idle-IsOrderly s es = run-IsOrderly es (idle s) (record { fifo = refl; single = refl })

pub completions : ℕ → List Event
completions zero = []
completions (suc n) = completes ∷ completions n

complete-accepted : (w : List Str) (s : Session) → (complete w s).accepted ≡ s.accepted
unfolding complete
complete-accepted [] s = refl
complete-accepted (m ∷ rest) s = (after_write-log (write_done false s)).0

complete-send_queue :
    (w : List Str) (s : Session) (m : Str)
    → w ≡ m ∷ []
    → (complete w s).send_queue ≡ pop_front s.send_queue
unfolding complete
complete-send_queue [] s m e = cc
complete-send_queue (n ∷ rest) s m e = after_write-send_queue (write_done false s)

drained :
    (q : List Str) (s : Session)
    → s.send_queue ≡ q
    → IsOrderly s
    → (run (completions (length q)) s).written ≡ s.accepted
unfolding run completions step
drained [] s e v = sym (v.fifo ∙ (ap (◌++◌ s.written) e ∙ append-nil s.written))
drained (m ∷ q) s e v =
    let next = complete-send_queue s.writes s m (v.single ∙ ap front e) ∙ ap pop_front e in
    drained q (complete s.writes s) next (complete-IsOrderly s.writes s refl v)
    ∙ complete-accepted s.writes s

-- No message is stuck: after any interleaving from an idle session, as many further completed
-- writes as there are queued messages write every message that `send` was called with, in order.
pub drained-idle :
    (s : Session) (es : List Event)
    → let t = run es (idle s) in (run (completions (length t.send_queue)) t).written ≡ t.accepted
drained-idle s es = drained _ (run es (idle s)) refl (run-idle-IsOrderly s es)
