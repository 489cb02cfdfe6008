-- ===== src/WebSocketServer/Notices.antt =====
-- What the handlers of the application are told, where that differs from what the headers say.
use uni_serve_libhttp.Common.{
  ℕ, ◌<◌, ◌≡◌, refl, ap, ◌∙◌, true, List, [], ◌∷◌, none, some, arith, Str, erase, lookup,
  lookup-erase, IsDict, str_eq_self,
}
use uni_serve_libhttp.WebSocketServer.{
  Session, failed, received, MessageHandler, done, perform, call_disconnect, do_read, run_handlers,
  Server, update, change, get_client, disconnect_client, on_read, on_write, drop, remove_client,
}
use uni_serve_libhttp.WebSocketServer.Steps.{
  Step, Reach, here, next, wrote, read, read_done, write_done,
}

client_id-update :
    (sessions : ℕ → Session) (h : ℕ)
    → (update sessions h (read_done (sessions h)) h).client_id ≡ (sessions h).client_id
client_id-update sessions h = ground arith

module _ {W : Type 0} where
  -- A session with a write and a read outstanding that both fail: the disconnect handler is called
  -- twice for its client; stated for a handler that calls nothing of the server.
  pub told_twice :
      (v : Server W) (h : ℕ) (f : Str → W → W) (m : Str) (rest : List Str)
      → (v.sessions h).writes ≡ m ∷ rest
      → 0 < (v.sessions h).reads
      → v.disconnect_handler ≡ some (λ id w. done (f id w))
      → (v' : Server W) × Reach v v'
        × (v'.world ≡ f (v.sessions h).client_id (f (v.sessions h).client_id v.world))
  unfolding on_write on_read drop call_disconnect perform remove_client
  told_twice v h f m rest e l d =
      let first : Server W = on_write h true (change h (write_done true) v) in
      let second : Server W = on_read h failed (change h read_done first) in
      (
        second,
        next (next here (wrote h true m rest e refl)) (read h failed (ground arith) refl),
        ground arith,
      )

  run_handlers-one :
      (h : ℕ) (message path : Str) (f : MessageHandler W) (u : Server W)
      → u.message_handlers ≡ (path, f) ∷ []
      → run_handlers h message u.message_handlers u
        ≡ perform h (f (u.sessions h).client_id message u.world) u
  unfolding run_handlers
  run_handlers-one h message path f u e = ap (λ fs. run_handlers h message fs u) e

  -- A client that the server disconnects is not in the registry any more; but its read stays
  -- outstanding, and the next message that it sends is still handed to the message handler,
  -- whatever path that was registered under, whose calls are all made, and it is read again.
  pub disconnected_still_read :
      (v : Server W) (h : ℕ) (message path : Str) (f : MessageHandler W)
      → lookup (v.sessions h).client_id v.clients ≡ some h
      → IsDict v.clients
      → 0 < (v.sessions h).reads
      → v.message_handlers ≡ (path, f) ∷ []
      → let v' = disconnect_client (v.sessions h).client_id v in
        (v'' : Server W) × (get_client (v.sessions h).client_id v' ≡ none)
        × Step v' v''
        × (v''
            ≡ change h do_read
                (perform h (f (v.sessions h).client_id message v.world) (change h read_done v')))
  unfolding disconnect_client get_client on_read run_handlers
  disconnected_still_read v h message path f e d l hs =
      let id = (v.sessions h).client_id in
      let v' : Server W = record v { clients = erase id v.clients } in
      rw (e, disconnect_client)
        (
          on_read h (received message) (change h read_done v'),
          lookup-erase id id v.clients d ∙ ground (arith, str_eq_self id),
          read h (received message) l refl,
          ap (change h do_read) (
              run_handlers-one h message path f (change h read_done v') hs
              ∙ ap (λ i. perform h (f i message v.world) (change h read_done v'))
                  (client_id-update v.sessions h)),
        )
