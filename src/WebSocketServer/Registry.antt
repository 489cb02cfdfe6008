-- ===== src/WebSocketServer/Registry.antt =====
-- The client registry: who is registered, what the calls on it do, and that every step keeps it.
use uni_serve_libhttp.Common.{
  ℕ, ◌+◌, ◌≡◌, refl, ◌∙◌, Bool, false, List, [], ◌∷◌, arith, Str, length, All, insert, erase,
  IsDict, Misses, str_eq_iff, if◌then◌else◌, ◌||◌, ◌==◌,
}
use uni_serve_libhttp.WebSocketServer.{
  Session, send, Server, update, change, get_client_count, send_each, broadcast,
}

-- Every entry has the id of its session as its key.
abbrev pub Named : (ℕ → Session) → List (Str × ℕ) → Type 0
Named sessions m = All (λ e. (sessions e.1).client_id ≡ e.0) m

-- Whether a session is registered.
abbrev pub listed : ℕ → List (Str × ℕ) → Bool
listed h [] = false
listed h ((k, j) ∷ m) = j == h || listed h m

pub send-client_id : (m : Str) (s : Session) → (send m s).client_id ≡ s.client_id
unfolding send
send-client_id m s = ground arith

-- A change of one session that keeps its id keeps every name.
pub Named-update :
    (sessions : ℕ → Session) (h : ℕ) (s : Session) (m : List (Str × ℕ))
    → s.client_id ≡ (sessions h).client_id
    → Named sessions m
    → Named (update sessions h s) m
Named-update sessions h s [] e n = tt
Named-update sessions h s ((k, j) ∷ m) e (n, ns) = (ground arith, Named-update sessions h s m e ns)

pub Named-update_other :
    (sessions : ℕ → Session) (h : ℕ) (s : Session) (m : List (Str × ℕ))
    → listed h m ≡ false
    → Named sessions m
    → Named (update sessions h s) m
Named-update_other sessions h s [] e n = tt
Named-update_other sessions h s ((k, j) ∷ m) e (n, ns) =
    (ground arith, Named-update_other sessions h s m (ground arith) ns)

pub Named-insert :
    (sessions : ℕ → Session) (k : Str) (h : ℕ) (m : List (Str × ℕ))
    → (sessions h).client_id ≡ k
    → Named sessions m
    → Named sessions (insert k h m)
unfolding insert
Named-insert sessions k h [] e n = (e, tt)
Named-insert sessions k h ((i, j) ∷ m) e (n, ns) =
    ground (arith, str_eq_iff i k, Named-insert sessions k h m e ns)

pub Named-erase :
    (sessions : ℕ → Session) (k : Str) (m : List (Str × ℕ))
    → Named sessions m
    → Named sessions (erase k m)
unfolding erase
Named-erase sessions k [] n = tt
Named-erase sessions k ((i, j) ∷ m) (n, ns) = ground (arith, Named-erase sessions k m ns)

-- A session has no second entry under another key.
listed_once :
    (sessions : ℕ → Session) (h : ℕ) (k : Str) (m : List (Str × ℕ))
    → (sessions h).client_id ≡ k
    → Misses k m
    → Named sessions m
    → listed h m ≡ false
listed_once sessions h k [] e s n = refl
listed_once sessions h k ((i, j) ∷ m) e (s, ss) (n, ns) =
    ground (arith, listed_once sessions h k m e ss ns)

module _ {W : Type 0} where
  -- Every client is registered once, under the id of its session.
  pub record IsRegistry (v : Server W) : Type 0 where
    pub dict : IsDict v.clients
    pub named : Named v.sessions v.clients

  pub send_each-count :
      (message : Str) (m : List (Str × ℕ)) (n : ℕ) (v : Server W)
      → (send_each message m n v).1 ≡ n + length m
  unfolding send_each
  send_each-count message [] n v = omega arith
  send_each-count message ((k, h) ∷ m) n v =
      omega (arith, send_each-count message m (n + 1) (change h (send message) v))

  pub send_each-clients :
      (message : Str) (m : List (Str × ℕ)) (n : ℕ) (v : Server W)
      → (send_each message m n v).0.clients ≡ v.clients
  unfolding send_each
  send_each-clients message [] n v = refl
  send_each-clients message ((k, h) ∷ m) n v =
      send_each-clients message m (n + 1) (change h (send message) v)

  send_each-sessions :
      (message : Str) (m : List (Str × ℕ)) (n h : ℕ) (v : Server W)
      → IsDict m
      → Named v.sessions m
      → (send_each message m n v).0.sessions h
        ≡ (if listed h m then send message (v.sessions h) else v.sessions h)
  unfolding send_each
  send_each-sessions message [] n h v d e = refl
  send_each-sessions message ((k, j) ∷ m) n h v (s, d) (e, es) =
      send_each-sessions message m (n + 1) h (change j (send message) v) d (
        Named-update v.sessions j (send message (v.sessions j)) m
          (send-client_id message (v.sessions j)) es)
      ∙ ground (arith, listed_once v.sessions j k m e s es)

  -- With every client registered under the id of its session, a broadcast gives the message once to
  -- each registered session and to no other, and registers and drops nobody; its count is that of
  -- the registered clients, whatever state their sessions are in and whether or not the message
  -- reaches them.
  pub broadcast_lem :
      (message : Str) (v : Server W) (h : ℕ)
      → IsRegistry v
      → ((broadcast message v).1 ≡ get_client_count v)
        × ((broadcast message v).0.clients ≡ v.clients)
        × ((broadcast message v).0.sessions h
            ≡ (if listed h v.clients then send message (v.sessions h) else v.sessions h))
  unfolding broadcast get_client_count
  broadcast_lem message v h r = (
    send_each-count message v.clients 0 v ∙ omega arith,
    send_each-clients message v.clients 0 v,
    send_each-sessions message v.clients 0 h v r.dict r.named,
  )
