-- ===== src/HttpClient/Memory/Safety.antt =====
-- What a client does to the heap over its life.
use uni_serve_libhttp.Common.{
  ℕ, ◌+◌, ◌<◌, ◌≤◌, ◌≡◌, sym, ◌∙◌, subst, true, false, List, Option, none, some, ◌==◌,
  if◌then◌else◌, arith,
}
use uni_serve_libhttp.HttpClient.Memory.{
  Memory, free, free_list, construct, destroy, Call, run_calls,
}
use uni_serve_libhttp.HttpClient.Memory.Ownership.{
  IsFresh, IsClient, live_handle, live_list, construct-IsState, run_calls-IsState,
}

free_live :
    (p : ℕ) (m : Memory)
    → m.live p ≡ true
    → free p m ≡ record m { live = λ k. if k == p then false else m.live k }
unfolding free
free_live p m e = ground arith

-- What a client leaves of the heap of the state `o`.
abbrev IsClean : Memory → Memory → Type 0
IsClean o m = ((k : ℕ) → m.live k ≡ o.live k) × (m.faults ≡ o.faults)

destroy-IsClean :
    (o m : Memory) (p : ℕ) (h : Option ℕ)
    → IsFresh o
    → IsClient o p h m
    → IsClean o (destroy (record { curl = p; headers = h }, m))
unfolding destroy free_list
destroy-IsClean o m p none f v =
    subst (IsClean o) (sym (free_live p m (live_handle o m p none v)))
      (λ k. grind (arith, v.lives k, f p v.since), v.safe)
destroy-IsClean o m p (some q) f v =
    let freed : Memory = record m { live = λ k. if k == p then false else m.live k } in
    subst (λ x. IsClean o (free q x)) (sym (free_live p m (live_handle o m p (some q) v)))
      (subst (IsClean o) (sym (free_live q freed (grind (arith, live_list o m p q v, v.owned))))
        (λ k. grind (arith, v.lives k, f p v.since, f q v.owned.0, v.owned), v.safe))

-- Whatever headers are set and cleared and whatever requests are made over the life of a client: it
-- uses and frees nothing that is not allocated at that time, the list that a request refers the
-- handle to included, and when it is destroyed, all that it has allocated is free again and all
-- else is as it was.
pub destroy-run_calls :
    (o : Memory) (calls : List Call)
    → IsFresh o
    → ((k : ℕ) → (destroy (run_calls calls (construct o))).live k ≡ o.live k)
      × ((destroy (run_calls calls (construct o))).faults ≡ o.faults)
destroy-run_calls o calls f =
    let (c, m) = run_calls calls (construct o) in
    destroy-IsClean o m c.curl c.headers f
      (run_calls-IsState o calls (construct o) f (construct-IsState o f))

free-faults : (p : ℕ) (m : Memory) → m.faults ≤ (free p m).faults
unfolding free
free-faults p m = ground arith

free_list-faults : (h : Option ℕ) (m : Memory) → m.faults ≤ (free_list h m).faults
unfolding free_list
free_list-faults none m = omega arith
free_list-faults (some q) m = free-faults q m

free_dead : (p : ℕ) (m : Memory) → m.live p ≡ false → free p m ≡ record m { faults = m.faults + 1 }
unfolding free
free_dead p m e = ground arith

destroy_again :
    (o d : Memory) (p : ℕ) (h : Option ℕ)
    → d.live p ≡ false
    → d.faults ≡ o.faults
    → o.faults < (destroy (record { curl = p; headers = h }, d)).faults
unfolding destroy
destroy_again o d p h l e =
    subst (λ x. o.faults < (free_list h x).faults) (sym (free_dead p d l))
      (omega (arith, e, free_list-faults h (record d { faults = d.faults + 1 })))

-- The compiler gives the class a copy constructor that copies its pointers: whatever a client has
-- done, the destructions of it and of a copy free its handle twice.
pub destroy_copied :
    (o : Memory) (calls : List Call)
    → IsFresh o
    → let (c, m) = run_calls calls (construct o) in o.faults < (destroy (c, destroy (c, m))).faults
destroy_copied o calls f =
    let (c, m) = run_calls calls (construct o) in
    let v = run_calls-IsState o calls (construct o) f (construct-IsState o f) in
    let clean = destroy-IsClean o m c.curl c.headers f v in
    destroy_again o (destroy (c, m)) c.curl c.headers (clean.0 c.curl ∙ f c.curl v.since) clean.1
