-- ===== src/WebSocketServer/Order/Runs.antt =====
-- Servers that differ in the order of `clients_` only, as they run.
use uni_serve_libhttp.Common.{
  ℕ, ◌≡◌, refl, sym, ap, subst, ◌∙◌, List, Str, Permᴰ, lookup, IsDict, lookup-perm, length-perm,
  length,
}
use uni_serve_libhttp.WebSocketServer.{
  Server, change, broadcast, get_client, get_client_count, start_session, on_message, on_connect,
  on_disconnect,
}
use uni_serve_libhttp.WebSocketServer.Registry.{IsRegistry}
use uni_serve_libhttp.WebSocketServer.Order.{
  with_clients, Alike, listed-perm, broadcast-Alike, broadcast-count, send_to_client-Alike,
  disconnect_client-Alike,
}
use uni_serve_libhttp.WebSocketServer.Order.Handlers.{
  on_accept-Unordered, on_read-Unordered, on_write-Unordered,
}
use uni_serve_libhttp.WebSocketServer.Steps.{
  Step, connection, accepted, read, wrote, sends, broadcasts, disconnects, message_handler,
  connect_handler, disconnect_handler, Reach, here, next, accept_done, read_done, write_done,
  Step-IsRegistry,
}

module _ {W : Type 0} where
  -- A step to `w` that is also one to an alike server from `v'`.
  abbrev Followed : Server W → Server W → Type 0
  Followed v' w = (w' : Server W) × Step v' w' × Alike w w'

  followed : (v' w o o' : Server W) → w ≡ o → Alike o o' → (o' ≡ o' → Step v' o') → Followed v' w
  followed v' w o o' e a step = (o', step refl, subst (λ x. Alike x o') (sym e) a)

  Step-Followed :
      (m : List (Str × ℕ)) (v w : Server W)
      → IsDict v.clients
      → Permᴰ v.clients m
      → Step v w
      → Followed (with_clients m v) w
  unfolding start_session on_message on_connect on_disconnect
  Step-Followed m v w r d (connection h address l e) =
      followed _ w _ _ e (m, d, refl) (connection h address (sym (listed-perm h d) ∙ l))
  Step-Followed m v w r d (accepted h error p e) =
      followed _ w _ _ e (on_accept-Unordered h error m (change h accept_done v) r d)
        (accepted h error p)
  Step-Followed m v w r d (read h result p e) =
      followed _ w _ _ e (on_read-Unordered h result m (change h read_done v) r d) (read h result p)
  Step-Followed m v w r d (wrote h error x rest p e) =
      followed _ w _ _ e (on_write-Unordered h error m (change h (write_done error) v) r d)
        (wrote h error x rest p)
  Step-Followed m v w r d (sends id message e) =
      followed _ w _ _ e (send_to_client-Alike id message m v r d) (sends id message)
  Step-Followed m v w r d (broadcasts message e) =
      followed _ w _ _ e (broadcast-Alike message m v d) (broadcasts message)
  Step-Followed m v w r d (disconnects id e) =
      followed _ w _ _ e (disconnect_client-Alike id m v r d) (disconnects id)
  Step-Followed m v w r d (message_handler path f e) =
      followed _ w _ _ e (m, d, refl) (message_handler path f)
  Step-Followed m v w r d (connect_handler f e) =
      followed _ w _ _ e (m, d, refl) (connect_handler f)
  Step-Followed m v w r d (disconnect_handler f e) =
      followed _ w _ _ e (m, d, refl) (disconnect_handler f)

  Step-Alike : (v w v' : Server W) → IsRegistry v → Alike v v' → Step v w → Followed v' w
  Step-Alike v w v' r (m, d, e) step =
      subst (λ x. Followed x w) (sym e) (Step-Followed m v w r.dict d step)

  Reach-keeps : {v w : Server W} → IsRegistry v → Reach v w → IsRegistry w
  Reach-keeps r here = r
  Reach-keeps r (next s step) = Step-IsRegistry step (Reach-keeps r s)

  Reach-followed :
      (v w v' : Server W)
      → IsRegistry v
      → Alike v v'
      → Reach v w
      → (w' : Server W) × Reach v' w' × Alike w w'
  Reach-followed v w v' r a here = (v', here, a)
  Reach-followed v w v' r a (next {t} s step) =
      let (t', s', b) = Reach-followed v t v' r a s in
      let (w', step', c) = Step-Alike t w t' (Reach-keeps r s) b step in (w', next s' step', c)

  Alike-answers :
      (w w' : Server W)
      → IsRegistry w
      → Alike w w'
      → ((id : Str) → get_client id w' ≡ get_client id w)
        × (get_client_count w' ≡ get_client_count w)
        × ((message : Str) → (broadcast message w').0.sessions ≡ (broadcast message w).0.sessions)
        × ((message : Str) → (broadcast message w').1 ≡ (broadcast message w).1)
  unfolding get_client get_client_count broadcast
  Alike-answers w w' r (m, d, e) = (
    λ id. ap (λ x. lookup id x.clients) e ∙ sym (lookup-perm id d r.dict),
    ap (λ x. length x.clients) e ∙ sym (length-perm d),
    λ message.
        ap (λ x. (broadcast message x).0.sessions) e
        ∙ ap (λ x. x.sessions) (broadcast-Alike message m w d).2,
    λ message. ap (λ x. (broadcast message x).1) e ∙ broadcast-count message m w d,
  )

  -- Every client being registered once, under the id of its session: what a server can come to, it
  -- can come to with the same clients in any other order of `clients_` too, with the same session
  -- objects, handlers and application state, up to the order of `clients_` again. There `getClient`
  -- finds the same session for each id, `getClientCount` says the same, and a broadcast reaches the
  -- same sessions and counts as many.
  pub Reach-Alike :
      (v w v' : Server W)
      → IsRegistry v
      → Alike v v'
      → Reach v w
      → (w' : Server W) × Reach v' w'
        × Alike w w'
        × ((id : Str) → get_client id w' ≡ get_client id w)
        × (get_client_count w' ≡ get_client_count w)
        × ((message : Str) → (broadcast message w').0.sessions ≡ (broadcast message w).0.sessions)
        × ((message : Str) → (broadcast message w').1 ≡ (broadcast message w).1)
  Reach-Alike v w v' r a s =
      let (w', s', b) = Reach-followed v w v' r a s in
      let (found, count, reached, counted) = Alike-answers w w' (Reach-keeps r s) b in
      (w', s', b, found, count, reached, counted)
