-- ===== src/WebSocketServer/Discipline.antt =====
-- The operations that a server has outstanding on the WebSocket stream of each session.
pub mod Handling
pub mod Runs
pub mod Fifo
pub mod Progress
use uni_serve_libhttp.Common.{
  ℕ, ◌+◌, ◌<◌, ◌≤◌, ◌≡◌, refl, ◌∙◌, ◌⊎◌, inl, inr, Bool, true, false, List, [], ◌∷◌, some, arith,
  Str, All, lookup, insert, erase, if◌then◌else◌, ◌==◌,
}
use uni_serve_libhttp.WebSocketServer.{
  Session, Server, update, change, send, do_read, after_write, front, pop_front,
}
use uni_serve_libhttp.WebSocketServer.Queue.{send-single, after_write-single}
use uni_serve_libhttp.WebSocketServer.Steps.{accept_done, read_done, write_done}

-- One handshake or read at most, and one write at most, which is that of the message at the front of
-- the queue; and no message as long as the handshake is outstanding.
pub record IsExclusive (s : Session) : Type 0 where
  pub one : s.accepts + s.reads ≤ 1
  pub writing : (s.writes ≡ []) ⊎ (s.writes ≡ front s.send_queue)
  pub quiet : (s.accepts ≡ 0) ⊎ ((s.send_queue ≡ []) × (s.writes ≡ []))

pub send-accepts_reads :
    (m : Str) (s : Session) → ((send m s).accepts ≡ s.accepts) × ((send m s).reads ≡ s.reads)
unfolding send
send-accepts_reads m s = ground arith

send-writing :
    (m : Str) (s : Session)
    → (s.writes ≡ []) ⊎ (s.writes ≡ front s.send_queue)
    → ((send m s).writes ≡ []) ⊎ ((send m s).writes ≡ front (send m s).send_queue)
unfolding send
send-writing m s (inl e) = ground arith
send-writing m s (inr e) = inr (send-single m s e)

pub send-IsExclusive :
    (m : Str) (s : Session) → s.accepts ≡ 0 → IsExclusive s → IsExclusive (send m s)
send-IsExclusive m s a v = record {
  one = omega (arith, send-accepts_reads m s, v.one);
  writing = send-writing m s v.writing;
  quiet = inl (omega (arith, send-accepts_reads m s, a));
}

pub accept_done-IsExclusive : (s : Session) → IsExclusive s → IsExclusive (accept_done s)
accept_done-IsExclusive s v = record {
  one = omega (arith, v.one);
  writing = v.writing;
  quiet = inl (omega (arith, v.one));
}

pub read_done-IsExclusive : (s : Session) → IsExclusive s → IsExclusive (read_done s)
read_done-IsExclusive s v = record {
  one = omega (arith, v.one);
  writing = v.writing;
  quiet = v.quiet;
}

pub do_read-IsExclusive :
    (s : Session) → s.accepts ≡ 0 → s.reads ≡ 0 → IsExclusive s → IsExclusive (do_read s)
do_read-IsExclusive s a b v = record {
  one = omega (arith, a, b);
  writing = v.writing;
  quiet = inl a;
}

-- A write that is outstanding is the only one, behind the handshake.
pub write_done_lem :
    (s : Session) (m : Str) (rest : List Str)
    → s.writes ≡ m ∷ rest
    → IsExclusive s
    → (rest ≡ []) × (s.accepts ≡ 0)
write_done_lem s m rest e v = ground (arith, v.writing, v.quiet)

pub write_done-IsExclusive :
    (error : Bool) (s : Session) (m : Str) (rest : List Str)
    → s.writes ≡ m ∷ rest
    → IsExclusive s
    → IsExclusive (write_done error s)
write_done-IsExclusive error s m rest e v =
    let (single, ready) = write_done_lem s m rest e v in
    record { one = v.one; writing = inl (ground arith); quiet = inl ready }

pub after_write-accepts : (s : Session) → (after_write s).accepts ≡ s.accepts
unfolding after_write
after_write-accepts s = ground arith

pub after_write-IsExclusive :
    (s : Session) → s.writes ≡ [] → s.accepts ≡ 0 → IsExclusive s → IsExclusive (after_write s)
unfolding after_write
after_write-IsExclusive s e a v = record {
  one = ground (arith, v.one);
  writing = inr (after_write-single s e);
  quiet = inl (after_write-accepts s ∙ a);
}

-- The session of every entry is past its handshake.
abbrev pub AreReady : (ℕ → Session) → List (Str × ℕ) → Type 0
AreReady sessions m = All (λ e. (sessions e.1).accepts ≡ 0) m

pub AreReady-update :
    (sessions : ℕ → Session) (h : ℕ) (s : Session) (m : List (Str × ℕ))
    → s.accepts ≤ (sessions h).accepts
    → AreReady sessions m
    → AreReady (update sessions h s) m
AreReady-update sessions h s [] e n = tt
AreReady-update sessions h s ((k, j) ∷ m) e (n, ns) =
    (grind (arith, n, e), AreReady-update sessions h s m e ns)

pub AreReady-insert :
    (sessions : ℕ → Session) (k : Str) (h : ℕ) (m : List (Str × ℕ))
    → (sessions h).accepts ≡ 0
    → AreReady sessions m
    → AreReady sessions (insert k h m)
unfolding insert
AreReady-insert sessions k h [] e n = (e, tt)
AreReady-insert sessions k h ((i, j) ∷ m) e (n, ns) =
    ground (arith, AreReady-insert sessions k h m e ns)

pub AreReady-erase :
    (sessions : ℕ → Session) (k : Str) (m : List (Str × ℕ))
    → AreReady sessions m
    → AreReady sessions (erase k m)
unfolding erase
AreReady-erase sessions k [] n = tt
AreReady-erase sessions k ((i, j) ∷ m) (n, ns) = ground (arith, AreReady-erase sessions k m ns)

pub AreReady-lookup :
    (sessions : ℕ → Session) (k : Str) (h : ℕ) (m : List (Str × ℕ))
    → lookup k m ≡ some h
    → AreReady sessions m
    → (sessions h).accepts ≡ 0
unfolding lookup
AreReady-lookup sessions k h [] e n = cc
AreReady-lookup sessions k h ((i, j) ∷ m) e (n, ns) =
    grind (arith, AreReady-lookup sessions k h m, n, ns)

-- So it is with every session, and only sessions behind their handshake are registered.
pub record IsDisciplined {W : Type 0} (v : Server W) : Type 0 where
  pub exclusive : (h : ℕ) → IsExclusive (v.sessions h)
  pub ready : AreReady v.sessions v.clients
