-- ===== src/HttpServer/Lifecycle/Sessions.antt =====
-- The list of sessions.
use uni_serve_libhttp.Common.{
  ℕ, ◌+◌, ◌≡◌, ap, ◌∙◌, Bool-cases, inl, inr, ==_iff, Bool, not, ◌&&◌, List, [], ◌∷◌, ◌++◌, ◌==◌,
  arith, filter, if◌then◌else◌,
}
use uni_serve_libhttp.HttpServer.Lifecycle.{HttpServer, add_session, remove_session}

-- How often a session is listed.
pub count : ℕ → List ℕ → ℕ
count h [] = 0
count h (j ∷ js) = (if j == h then 1 else 0) + count h js

count-filter :
    (p : ℕ → Bool) (h : ℕ) (js : List ℕ) → count h (filter p js) ≡ (if p h then count h js else 0)
unfolding count filter
count-filter p h [] = ground arith
count-filter p h (j ∷ js) = elim (Bool-cases (j == h)) [
  | inl e ↦ ground (arith, ap p ((==_iff j h).0 e), count-filter p h js)
  | inr e ↦ ground (arith, count-filter p h js)
]

count-append : (h : ℕ) (xs ys : List ℕ) → count h (xs ++ ys) ≡ count h xs + count h ys
unfolding count
count-append h [] ys = omega arith
count-append h (x ∷ xs) ys = omega (arith, count-append h xs ys)

-- Adding a session lists it once more, and keeps the others that are alive; removing one takes off
-- all its entries, and keeps the others that are alive; both take off those that are destroyed.
pub add_session-remove_session :
    (alive : ℕ → Bool) (h j : ℕ) (v : HttpServer)
    → (count j (add_session alive h v).sessions
        ≡ (if alive j then count j v.sessions else 0) + (if h == j then 1 else 0))
      × (count j (remove_session alive h v).sessions
          ≡ (if alive j && not (j == h) then count j v.sessions else 0))
unfolding add_session remove_session count
add_session-remove_session alive h j v = (
  count-append j (filter alive v.sessions) (h ∷ [])
      ∙ ground (arith, count-filter alive j v.sessions),
  count-filter (λ i. alive i && not (i == h)) j v.sessions,
)
