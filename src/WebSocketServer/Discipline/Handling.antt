-- ===== src/WebSocketServer/Discipline/Handling.antt =====
-- The steps of a server, and what they start on the streams of its sessions.
use uni_serve_libhttp.Common.{
  ℕ, ◌+◌, ◌≤◌, ◌≡◌, inl, inr, List, [], ◌∷◌, arith, Str, lookup, erase, Option-cases,
}
use uni_serve_libhttp.WebSocketServer.{
  Session, Server, change, send, do_read, send_to_client, send_each, broadcast, disconnect_client,
  remove_client, drop,
}
use uni_serve_libhttp.WebSocketServer.Kept.{IsKept, call_disconnect-kept}
use uni_serve_libhttp.WebSocketServer.Discipline.{
  IsExclusive, send-accepts_reads, send-IsExclusive, do_read-IsExclusive, AreReady, AreReady-update,
  AreReady-erase, AreReady-lookup, IsDisciplined,
}

module _ {W : Type 0} where
  pub change-IsDisciplined :
      (h : ℕ) (f : Session → Session) (v : Server W)
      → IsExclusive (f (v.sessions h))
      → (f (v.sessions h)).accepts ≤ (v.sessions h).accepts
      → IsDisciplined v
      → IsDisciplined (change h f v)
  change-IsDisciplined h f v e a d = record {
    exclusive = λ j. ground (arith, e, d.exclusive j);
    ready = AreReady-update v.sessions h (f (v.sessions h)) v.clients a d.ready;
  }

  send-IsDisciplined :
      (h : ℕ) (m : Str) (v : Server W)
      → (v.sessions h).accepts ≡ 0
      → IsDisciplined v
      → IsDisciplined (change h (send m) v)
  send-IsDisciplined h m v a d =
      change-IsDisciplined h (send m) v (send-IsExclusive m (v.sessions h) a (d.exclusive h))
        (omega (arith, send-accepts_reads m (v.sessions h))) d

  -- A session with `a` handshakes and `n` reads outstanding; a handler is called for one with none
  -- of the first kind.
  pub record IsHandling (h a n : ℕ) (v : Server W) : Type 0 where
    pub disciplined : IsDisciplined v
    pub accepting : (v.sessions h).accepts ≡ a
    pub reading : (v.sessions h).reads ≡ n

  send-IsHandling :
      (h a n j : ℕ) (m : Str) (v : Server W)
      → (v.sessions j).accepts ≡ 0
      → IsHandling h a n v
      → IsHandling h a n (change j (send m) v)
  send-IsHandling h a n j m v e k = record {
    disciplined = send-IsDisciplined j m v e k.disciplined;
    accepting = grind (arith, send-accepts_reads m (v.sessions j), k.accepting);
    reading = grind (arith, send-accepts_reads m (v.sessions j), k.reading);
  }

  pub send_each-IsHandling :
      (h a n : ℕ) (message : Str) (m : List (Str × ℕ)) (count : ℕ) (v : Server W)
      → AreReady v.sessions m
      → IsHandling h a n v
      → IsHandling h a n (send_each message m count v).0
  unfolding send_each
  send_each-IsHandling h a n message [] count v r k = k
  send_each-IsHandling h a n message ((i, j) ∷ m) count v (e, r) k =
      send_each-IsHandling h a n message m (count + 1) (change j (send message) v)
        (AreReady-update v.sessions j (send message (v.sessions j)) m
          (omega (arith, send-accepts_reads message (v.sessions j))) r)
        (send-IsHandling h a n j message v e k)

  pub send_to_client-IsHandling :
      (h a n : ℕ) (id message : Str) (v : Server W)
      → IsHandling h a n v
      → IsHandling h a n (send_to_client id message v).0
  unfolding send_to_client
  send_to_client-IsHandling h a n id message v k = elim (Option-cases (lookup id v.clients)) [
    | inl e ↦ rw (e, send_to_client) k
    | inr (j, e) ↦
        rw (e, send_to_client)
          (send-IsHandling h a n j message v
            (AreReady-lookup v.sessions id j v.clients e k.disciplined.ready) k)
  ]

  erase-IsDisciplined :
      (id : Str) (v : Server W)
      → IsDisciplined v
      → IsDisciplined (record v { clients = erase id v.clients })
  erase-IsDisciplined id v d = record {
    exclusive = d.exclusive;
    ready = AreReady-erase v.sessions id v.clients d.ready;
  }

  pub disconnect_client-IsHandling :
      (h a n : ℕ) (id : Str) (v : Server W)
      → IsHandling h a n v
      → IsHandling h a n (disconnect_client id v)
  unfolding disconnect_client
  disconnect_client-IsHandling h a n id v k = elim (Option-cases (lookup id v.clients)) [
    | inl e ↦ rw (e, disconnect_client) k
    | inr (j, e) ↦
        rw (e, disconnect_client)
          (record {
            disciplined = erase-IsDisciplined id v k.disciplined;
            accepting = k.accepting;
            reading = k.reading;
          })
  ]

  pub IsHandling-IsKept : (h n : ℕ) → IsKept (IsHandling h 0 n) h
  unfolding broadcast
  IsHandling-IsKept h n = record {
    responds = λ message v k. send-IsHandling h 0 n h message v k.accepting k;
    sends = send_to_client-IsHandling h 0 n;
    broadcasts =
        λ message v k. send_each-IsHandling h 0 n message v.clients 0 v k.disciplined.ready k;
    disconnects = disconnect_client-IsHandling h 0 n;
    told = λ w v k. record {
      disciplined = record { exclusive = k.disciplined.exclusive; ready = k.disciplined.ready };
      accepting = k.accepting;
      reading = k.reading;
    };
  }

  pub read_next-IsDisciplined :
      (h : ℕ) (v : Server W) → IsHandling h 0 0 v → IsDisciplined (change h do_read v)
  read_next-IsDisciplined h v k =
      change-IsDisciplined h do_read v
        (do_read-IsExclusive (v.sessions h) k.accepting k.reading (k.disciplined.exclusive h))
        (omega arith) k.disciplined

  pub drop-IsDisciplined : (h n : ℕ) (v : Server W) → IsHandling h 0 n v → IsDisciplined (drop h v)
  unfolding drop remove_client
  drop-IsDisciplined h n v k =
      let id = (v.sessions h).client_id in
      (call_disconnect-kept (IsHandling h 0 n) h (IsHandling-IsKept h n) v.disconnect_handler id
        (remove_client id v)
        (record {
          disciplined = erase-IsDisciplined id v k.disciplined;
          accepting = k.accepting;
          reading = k.reading;
        })).disciplined
