-- ===== src/WebSocketServer/Race.antt =====
-- `Session::send`, which `sendToClient` and `broadcast` call on the thread of their caller, as the
-- three steps that a thread of the server can come between.
use mathlib.Core.List.{append-nil, append_assoc}
use uni_serve_libhttp.Common.{
  ◌≡◌, sym, ap, subst, ◌∙◌, Bool, true, false, not, List, [], ◌∷◌, ◌++◌, arith, Str, if◌then◌else◌,
}
use uni_serve_libhttp.WebSocketServer.{Session, do_write, send, after_write}
use uni_serve_libhttp.WebSocketServer.Steps.{write_done}

unfoldable pub write_in_progress : Session → Bool
write_in_progress s = elim s.send_queue [ [] ↦ false | message ∷ rest ↦ true ]

unfoldable pub push_back : Str → Session → Session
push_back message s = record s {
  send_queue = s.send_queue ++ (message ∷ []);
  accepted = s.accepted ++ (message ∷ []);
}

unfoldable pub start_write : Bool → Session → Session
unfolding do_write
start_write in_progress s = if not in_progress then do_write s else s

-- With nothing in between, the three steps are the call.
start_write-push_back :
    (message : Str) (s : Session)
    → start_write (write_in_progress s) (push_back message s) ≡ send message s
unfolding start_write write_in_progress push_back send do_write
start_write-push_back message s = ground arith

pub send_all_of : List Str → Session → Session
send_all_of [] s = s
send_all_of (m ∷ ms) s = send_all_of ms (send m s)

-- The call of `send` as another thread completes a write between its first two steps.
abbrev pub overtaken_send : Str → Session → Session
overtaken_send message s =
    start_write (write_in_progress s) (push_back message (after_write (write_done false s)))

send-push_back :
    (n m : Str) (q : List Str) (s : Session) → s.send_queue ≡ m ∷ q → send n s ≡ push_back n s
unfolding send push_back
send-push_back n m q s e = ground arith

-- The messages `q` are queued, and no write is outstanding.
abbrev IsLeft : List Str → Session → Type 0
IsLeft q s = (s.writes ≡ []) × (s.send_queue ≡ q)

send_all_of-waiting :
    (ms : List Str) (m : Str) (q : List Str) (s : Session)
    → s.send_queue ≡ m ∷ q
    → s.writes ≡ []
    → IsLeft ((m ∷ q) ++ ms) (send_all_of ms s)
unfolding send_all_of push_back
send_all_of-waiting [] m q s e w = (w, e ∙ sym (append-nil (m ∷ q)))
send_all_of-waiting (n ∷ ms) m q s e w =
    let (none_left, queued) =
      send_all_of-waiting ms m (q ++ (n ∷ [])) (push_back n s) (ap (λ z. z ++ (n ∷ [])) e) w in
    subst (λ t. IsLeft ((m ∷ q) ++ (n ∷ ms)) (send_all_of ms t)) (sym (send-push_back n m q s e))
      (none_left, queued ∙ append_assoc (m ∷ q) (n ∷ []) ms)

overtaken_send_lem :
    (x m : Str) (s : Session)
    → s.send_queue ≡ x ∷ []
    → s.writes ≡ x ∷ []
    → ((overtaken_send m s).send_queue ≡ m ∷ []) × ((overtaken_send m s).writes ≡ [])
unfolding start_write write_in_progress push_back after_write
overtaken_send_lem x m s e w = ground arith

-- A call of `send` that finds one message in the queue, its write being outstanding, while another
-- thread completes that write before the call goes on: the new message is left in the queue with no
-- write outstanding, and so are all messages that are sent afterwards, however many.
pub send_all_of-overtaken_send :
    (x m : Str) (ms : List Str) (s : Session)
    → s.send_queue ≡ x ∷ []
    → s.writes ≡ x ∷ []
    → let s' = send_all_of ms (overtaken_send m s) in (s'.writes ≡ []) × (s'.send_queue ≡ m ∷ ms)
send_all_of-overtaken_send x m ms s e w =
    let (queued, none_left) = overtaken_send_lem x m s e w in
    send_all_of-waiting ms m [] (overtaken_send m s) queued none_left
