-- ===== src/WebSocketServer/Listener/Moves.antt =====
-- What one event does to the server of a listener.
use uni_serve_libhttp.Common.{
  ℕ, ◌≡◌, refl, ap, ◌⊎◌, inl, inr, Bool, List, [], ◌∷◌, arith, Str, ltb, Bool-cases,
}
use uni_serve_libhttp.WebSocketServer.{Server, change, on_message, on_connect, on_disconnect}
use uni_serve_libhttp.WebSocketServer.Steps.{
  Step, accepted, read, wrote, sends, broadcasts, disconnects, message_handler, connect_handler,
  disconnect_handler, accept_done, read_done, write_done,
}
use uni_serve_libhttp.WebSocketServer.Listener.{Event, complete_write, serve}
use uni_serve_libhttp.WebSocketServer.Listener.Unborn.{
  IsUnborn, change-IsUnborn, on_accept-IsUnborn, on_read-IsUnborn, on_write-IsUnborn,
  send_to_client-IsUnborn, broadcast-IsUnborn, disconnect_client-IsUnborn,
}

module _ {W : Type 0} where
  abbrev pub Moves : Server W → Server W → Type 0
  Moves v w = (w ≡ v) ⊎ Step v w

  complete_write-Moves :
      (h : ℕ) (error : Bool) (ms : List Str) (v : Server W)
      → (v.sessions h).writes ≡ ms
      → Moves v (complete_write h error ms v)
  unfolding complete_write
  complete_write-Moves h error [] v e = inl refl
  complete_write-Moves h error (m ∷ ms) v e = inr (wrote h error m ms e refl)

  pub serve-Moves : (e : Event W) (v : Server W) → Moves v (serve e v)
  unfolding serve
  serve-Moves (Event.connects error endpoint) v = inl refl
  serve-Moves (Event.handshakes h error) v = elim (Bool-cases (ltb 0 (v.sessions h).accepts)) [
    | inl p ↦ rw (p, serve) (inr (accepted h error (ground (arith, p)) refl))
    | inr p ↦ rw (p, serve) (inl refl)
  ]
  serve-Moves (Event.reads h result) v = elim (Bool-cases (ltb 0 (v.sessions h).reads)) [
    | inl p ↦ rw (p, serve) (inr (read h result (ground (arith, p)) refl))
    | inr p ↦ rw (p, serve) (inl refl)
  ]
  serve-Moves (Event.writes h error) v = complete_write-Moves h error (v.sessions h).writes v refl
  serve-Moves (Event.sends id message) v = inr (sends id message refl)
  serve-Moves (Event.broadcasts message) v = inr (broadcasts message refl)
  serve-Moves (Event.disconnects id) v = inr (disconnects id refl)
  serve-Moves (Event.sets_message path f) v = inr (message_handler path f refl)
  serve-Moves (Event.sets_connect f) v = inr (connect_handler f refl)
  serve-Moves (Event.sets_disconnect f) v = inr (disconnect_handler f refl)

  complete_write-IsUnborn :
      (h j : ℕ) (error : Bool) (ms : List Str) (v : Server W)
      → IsUnborn h v
      → IsUnborn h (complete_write j error ms v)
  unfolding complete_write
  complete_write-IsUnborn h j error [] v u = u
  complete_write-IsUnborn h j error (m ∷ ms) v u =
      on_write-IsUnborn h j error (change j (write_done error) v)
        (change-IsUnborn h j (write_done error) v (omega arith) u)

  pub serve-IsUnborn : (h : ℕ) (e : Event W) (v : Server W) → IsUnborn h v → IsUnborn h (serve e v)
  unfolding serve on_message on_connect on_disconnect
  serve-IsUnborn h (Event.connects error endpoint) v u = u
  serve-IsUnborn h (Event.handshakes j error) v u =
      elim (Bool-cases (ltb 0 (v.sessions j).accepts)) [
        | inl p ↦
            rw (p, serve)
              (on_accept-IsUnborn h j error (change j accept_done v)
                (λ q. ground (arith, p, u.accepts, ap (λ i. (v.sessions i).accepts) q))
                (change-IsUnborn h j accept_done v (omega arith) u))
        | inr p ↦ rw (p, serve) u
      ]
  serve-IsUnborn h (Event.reads j result) v u = elim (Bool-cases (ltb 0 (v.sessions j).reads)) [
    | inl p ↦
        rw (p, serve)
          (on_read-IsUnborn h j result (change j read_done v)
            (change-IsUnborn h j read_done v (omega arith) u))
    | inr p ↦ rw (p, serve) u
  ]
  serve-IsUnborn h (Event.writes j error) v u =
      complete_write-IsUnborn h j error (v.sessions j).writes v u
  serve-IsUnborn h (Event.sends id message) v u = send_to_client-IsUnborn h id message v u
  serve-IsUnborn h (Event.broadcasts message) v u = broadcast-IsUnborn h message v u
  serve-IsUnborn h (Event.disconnects id) v u = disconnect_client-IsUnborn h id v u
  serve-IsUnborn h _ v u = record { accepts = u.accepts; unlisted = u.unlisted }
