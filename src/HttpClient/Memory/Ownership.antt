-- ===== src/HttpClient/Memory/Ownership.antt =====
-- What a client owns on the heap, and that its calls keep it so.
use uni_serve_libhttp.Common.{
  ℕ, ◌+◌, ◌<◌, ◌≤◌, ◌≡◌, ◌≢◌, refl, sym, subst, Bool, true, false, List, [], ◌∷◌, Option, none,
  some, ◌==◌, ◌||◌, if◌then◌else◌, arith,
}
use uni_serve_libhttp.HttpClient.Memory.{
  Memory, Pointers, allocate, free, touch, free_list, touch_list, construct, set_header,
  clear_headers, request, Call, sets_header, clears_headers, requests, apply, run_calls,
}

-- No object beyond the allocated ones is live.
abbrev pub IsFresh : Memory → Type 0
IsFresh m = (k : ℕ) → m.allocated ≤ k → m.live k ≡ false

abbrev pub is_list : ℕ → Option ℕ → Bool
is_list k none = false
is_list k (some q) = k == q

-- The list, if any, was allocated after the state `o`, and is not the handle `p`.
abbrev pub IsOwned : Memory → ℕ → Option ℕ → Memory → Type 0
IsOwned o p none m = Unit
IsOwned o p (some q) m = (o.allocated ≤ q) × (q < m.allocated) × (q ≢ p)

-- A client that was made in the state `o` has added its handle and its list to what is live.
pub record IsClient (o : Memory) (p : ℕ) (h : Option ℕ) (m : Memory) : Type 0 where
  pub since : o.allocated ≤ p
  pub before : p < m.allocated
  pub owned : IsOwned o p h m
  pub lives : (k : ℕ) → m.live k ≡ (k == p || is_list k h || o.live k)
  pub safe : m.faults ≡ o.faults

abbrev pub IsState : Memory → Pointers × Memory → Type 0
IsState o (c, m) = IsClient o c.curl c.headers m

IsOwned-kept :
    (o m m' : Memory) (p : ℕ) (h : Option ℕ)
    → m'.allocated ≡ m.allocated
    → IsOwned o p h m
    → IsOwned o p h m'
IsOwned-kept o m m' p none e w = tt
IsOwned-kept o m m' p (some q) e (a, b, c) = (a, omega (arith, b, e), c)

touch_live : (p : ℕ) (m : Memory) → m.live p ≡ true → touch p m ≡ m
unfolding touch
touch_live p m e = ground arith

pub construct-IsState : (o : Memory) → IsFresh o → IsState o (construct o)
unfolding construct allocate
construct-IsState o f = record {
  since = omega arith;
  before = omega arith;
  owned = tt;
  lives = λ k. ground arith;
  safe = refl;
}

pub live_handle : (o m : Memory) (p : ℕ) (h : Option ℕ) → IsClient o p h m → m.live p ≡ true
live_handle o m p h v = ground (arith, v.lives p)

pub live_list : (o m : Memory) (p q : ℕ) → IsClient o p (some q) m → m.live q ≡ true
live_list o m p q v = ground (arith, v.lives q)

set_header-IsState :
    (o m : Memory) (p : ℕ) (h : Option ℕ)
    → IsFresh o
    → IsClient o p h m
    → IsState o (set_header (record { curl = p; headers = h }, m))
unfolding set_header allocate
set_header-IsState o m p none f v = record {
  since = v.since;
  before = omega (arith, v.before);
  owned = (omega (arith, v.since, v.before), omega arith, λ e. omega (arith, e, v.before));
  lives = λ k. ground (arith, v.lives k);
  safe = v.safe;
}
set_header-IsState o m p (some q) f v =
    subst (IsClient o p (some q)) (sym (touch_live q m (live_list o m p q v))) v

clear_headers-IsState :
    (o m : Memory) (p : ℕ) (h : Option ℕ)
    → IsFresh o
    → IsClient o p h m
    → IsState o (clear_headers (record { curl = p; headers = h }, m))
unfolding clear_headers free_list free
clear_headers-IsState o m p none f v = v
clear_headers-IsState o m p (some q) f v =
    subst
      (λ b. IsClient o p none (
        if b
        then record m { live = λ k. if k == q then false else m.live k }
        else record m { faults = m.faults + 1 }))
      (sym (live_list o m p q v))
      (record {
        since = v.since;
        before = v.before;
        owned = tt;
        lives = λ k. grind (arith, v.lives k, v.owned, f q);
        safe = v.safe;
      })

touch_list_live : (o m : Memory) (p : ℕ) (h : Option ℕ) → IsClient o p h m → touch_list h m ≡ m
unfolding touch_list
touch_list_live o m p none v = refl
touch_list_live o m p (some q) v = touch_live q m (live_list o m p q v)

request-IsState :
    (o m : Memory) (p : ℕ) (h : Option ℕ)
    → IsClient o p h m
    → IsState o (request (record { curl = p; headers = h }, m))
unfolding request
request-IsState o m p h v =
    let set_up : Memory = record m { http_header = λ k. if k == p then h else m.http_header k } in
    let k : IsClient o p h set_up = record {
      since = v.since;
      before = v.before;
      owned = IsOwned-kept o m set_up p h refl v.owned;
      lives = v.lives;
      safe = v.safe;
    } in
    subst (λ x. IsClient o p h (touch_list (x.http_header p) x))
      (sym (touch_live p set_up (live_handle o set_up p h k)))
      (subst (λ y. IsClient o p h (touch_list y set_up)) (header_of p)
        (subst (IsClient o p h) (sym (touch_list_live o set_up p h k)) k))
  where
    header_of : (k : ℕ) → h ≡ (if k == k then h else m.http_header k)
    header_of k = ground arith

apply-IsState :
    (o : Memory) (call : Call) (s : Pointers × Memory)
    → IsFresh o
    → IsState o s
    → IsState o (apply call s)
unfolding apply
apply-IsState o sets_header (c, m) f v = set_header-IsState o m c.curl c.headers f v
apply-IsState o clears_headers (c, m) f v = clear_headers-IsState o m c.curl c.headers f v
apply-IsState o requests (c, m) f v = request-IsState o m c.curl c.headers v

pub run_calls-IsState :
    (o : Memory) (calls : List Call) (s : Pointers × Memory)
    → IsFresh o
    → IsState o s
    → IsState o (run_calls calls s)
unfolding run_calls
run_calls-IsState o [] s f v = v
run_calls-IsState o (call ∷ calls) s f v =
    run_calls-IsState o calls (apply call s) f (apply-IsState o call s f v)
