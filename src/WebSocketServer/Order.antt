-- ===== src/WebSocketServer/Order.antt =====
-- The order in which an iteration of `clients_`, a `std::unordered_map`, meets its entries.
pub mod Handlers
pub mod Runs
use uni_serve_libhttp.Common.{
  ℕ, ◌+◌, ◌≡◌, refl, sym, ap, subst, ◌∙◌, fun_ext, inl, inr, Bool, true, false, List, [], ◌∷◌,
  Option, none, some, arith, Str, Permᴰ, lookup, insert, erase, IsDict, lookup-perm, insert-perm,
  erase-perm, length-perm, Option-cases, if◌then◌else◌, ◌||◌, ◌==◌,
}
use uni_serve_libhttp.WebSocketServer.{
  Session, Server, update, change, send, send_to_client, send_each, broadcast, disconnect_client,
}
use uni_serve_libhttp.WebSocketServer.Registry.{listed, send_each-count}

pub listed-perm : (h : ℕ) {m m' : List (Str × ℕ)} → Permᴰ m m' → listed h m ≡ listed h m'
listed-perm h Permᴰ.nil = refl
listed-perm h (Permᴰ.cons e d) = grind (arith, ap (λ x. x.1) e, listed-perm h d)
listed-perm h (Permᴰ.swap e f) = grind (arith, ap (λ x. x.1) e, ap (λ x. x.1) f)
listed-perm h (Permᴰ.trans d d') = listed-perm h d ∙ listed-perm h d'

module _ {W : Type 0} where
  -- The server with its registry in another order.
  abbrev pub with_clients : List (Str × ℕ) → Server W → Server W
  with_clients m v = record v { clients = m }

  change_comm :
      (f : Session → Session) (h j : ℕ) (v : Server W)
      → change h f (change j f v) ≡ change j f (change h f v)
  change_comm f h j v = ap (λ s. record v { sessions = s }) (fun_ext (λ k. grind arith))

  send_each-with_clients :
      (message : Str) (l m : List (Str × ℕ)) (n : ℕ) (v : Server W)
      → (send_each message l n (with_clients m v)).0 ≡ with_clients m (send_each message l n v).0
  unfolding send_each
  send_each-with_clients message [] m n v = refl
  send_each-with_clients message ((k, h) ∷ l) m n v =
      send_each-with_clients message l m (n + 1) (change h (send message) v)

  pub send_each-perm :
      (message : Str) {l l' : List (Str × ℕ)} (n : ℕ) (v : Server W)
      → Permᴰ l l'
      → send_each message l n v ≡ send_each message l' n v
  unfolding send_each
  send_each-perm message n v Permᴰ.nil = refl
  send_each-perm message n v (Permᴰ.cons {a} {b} {l₁} {l₂} e d) =
      subst (λ x. send_each message (a ∷ l₁) n v ≡ send_each message (x ∷ l₂) n v) (e)
        (send_each-perm message (n + 1) (change a.1 (send message) v) d)
  send_each-perm message n v (Permᴰ.swap {a} {b} {a'} {b'} {l} e f) =
      subst (λ x. send_each message (a ∷ b ∷ l) n v ≡ send_each message (a' ∷ x ∷ l) n v) (e)
        (subst (λ x. send_each message (a ∷ b ∷ l) n v ≡ send_each message (x ∷ a ∷ l) n v) (f)
          (ap (send_each message l (n + 1 + 1)) (change_comm (send message) b.1 a.1 v)))
  send_each-perm message n v (Permᴰ.trans d d') =
      send_each-perm message n v d ∙ send_each-perm message n v d'

  -- `v'` is `v` but for the order of its registry.
  abbrev pub Alike : Server W → Server W → Type 0
  Alike v v' = (m : List (Str × ℕ)) × Permᴰ v.clients m × (v' ≡ with_clients m v)

  pub broadcast-Alike :
      (message : Str) (m : List (Str × ℕ)) (v : Server W)
      → Permᴰ v.clients m
      → Alike (broadcast message v).0 (broadcast message (with_clients m v)).0
  unfolding broadcast
  broadcast-Alike message m v d = (
    m,
    subst (λ x. Permᴰ x m)
        (sym (ap (λ w. w.clients) (send_each-with_clients message v.clients v.clients 0 v))) d,
    ap (λ x. x.0) (sym (send_each-perm message 0 (with_clients m v) d))
        ∙ send_each-with_clients message v.clients m 0 v,
  )

  pub send_to_client-Alike :
      (id message : Str) (m : List (Str × ℕ)) (v : Server W)
      → IsDict v.clients
      → Permᴰ v.clients m
      → Alike (send_to_client id message v).0 (send_to_client id message (with_clients m v)).0
  unfolding send_to_client
  send_to_client-Alike id message m v r d =
      let found = lookup-perm id d r in
      elim (Option-cases (lookup id v.clients)) [
        | inl e ↦ rw (e, sym found ∙ e, send_to_client) (m, d, refl)
        | inr (h, e) ↦ rw (e, sym found ∙ e, send_to_client) (m, d, refl)
      ]

  pub disconnect_client-Alike :
      (id : Str) (m : List (Str × ℕ)) (v : Server W)
      → IsDict v.clients
      → Permᴰ v.clients m
      → Alike (disconnect_client id v) (disconnect_client id (with_clients m v))
  unfolding disconnect_client
  disconnect_client-Alike id m v r d =
      let found = lookup-perm id d r in
      elim (Option-cases (lookup id v.clients)) [
        | inl e ↦ rw (e, sym found ∙ e, disconnect_client) (m, d, refl)
        | inr (h, e) ↦
            rw (e, sym found ∙ e, disconnect_client) (erase id m, erase-perm id d r, refl)
      ]

  -- The answers of the calls do not show the order.
  pub send_to_client-sent :
      (id message : Str) (m : List (Str × ℕ)) (v : Server W)
      → IsDict v.clients
      → Permᴰ v.clients m
      → (send_to_client id message (with_clients m v)).1 ≡ (send_to_client id message v).1
  unfolding send_to_client
  send_to_client-sent id message m v r d =
      let found = lookup-perm id d r in
      elim (Option-cases (lookup id v.clients)) [
        | inl e ↦ rw (e, sym found ∙ e, send_to_client) refl
        | inr (h, e) ↦ rw (e, sym found ∙ e, send_to_client) refl
      ]

  pub broadcast-count :
      (message : Str) (m : List (Str × ℕ)) (v : Server W)
      → Permᴰ v.clients m
      → (broadcast message (with_clients m v)).1 ≡ (broadcast message v).1
  unfolding broadcast
  broadcast-count message m v d =
      send_each-count message m 0 (with_clients m v)
      ∙ (ap (λ n. 0 + n) (sym (length-perm d)) ∙ sym (send_each-count message v.clients 0 v))
