-- ===== src/HttpClient/Memory.antt =====
-- What an `HttpClient` holds on the heap: the handle of libcurl and the list of header lines, which
-- `curl_slist_append` makes and which the handle refers to as its `CURLOPT_HTTPHEADER`.
pub mod Ownership
pub mod Safety
use uni_serve_libhttp.Common.{
  ℕ, suc, ◌+◌, Bool, true, false, List, [], ◌∷◌, Option, none, some, ◌==◌, if◌then◌else◌,
}

-- The account of libcurl's objects that its documentation asks for, by their numbers in the order of
-- allocation: which ones are allocated and not freed, the list that each handle refers to, and how
-- often an object was used or freed that is not allocated.
pub record Memory : Type 0 where
  pub live : ℕ → Bool
  pub http_header : ℕ → Option ℕ
  pub allocated : ℕ
  pub faults : ℕ

-- The two pointers of a client.
pub record Pointers : Type 0 where
  pub curl : ℕ
  pub headers : Option ℕ

unfoldable pub allocate : Memory → Memory
allocate m = record m {
  live = λ k. if k == m.allocated then true else m.live k;
  allocated = suc m.allocated;
}

unfoldable pub free : ℕ → Memory → Memory
free p m =
    if m.live p
    then record m { live = λ k. if k == p then false else m.live k }
    else record m { faults = m.faults + 1 }

-- A read or a write of an object.
unfoldable pub touch : ℕ → Memory → Memory
touch p m = if m.live p then m else record m { faults = m.faults + 1 }

-- `curl_slist_free_all`, under the test for a null pointer.
unfoldable pub free_list : Option ℕ → Memory → Memory
unfolding free
free_list none m = m
free_list (some q) m = free q m

unfoldable pub touch_list : Option ℕ → Memory → Memory
unfolding touch
touch_list none m = m
touch_list (some q) m = touch q m

-- The constructor, where `curl_easy_init` gives a handle.
unfoldable pub construct : Memory → Pointers × Memory
unfolding allocate
construct m = (record { curl = m.allocated; headers = none }, allocate m)

-- `curl_slist_append` makes a list of a null pointer, and otherwise extends the list.
unfoldable pub set_header : Pointers × Memory → Pointers × Memory
unfolding allocate touch
set_header (c, m) = elim c.headers [
  | none ↦ (record c { headers = some m.allocated }, allocate m)
  | some q ↦ (c, touch q m)
]

unfoldable pub clear_headers : Pointers × Memory → Pointers × Memory
unfolding free_list
clear_headers (c, m) = (record c { headers = none }, free_list c.headers m)

-- A request refers the handle to the list, in place of what it referred to before, and transfers.
unfoldable pub request : Pointers × Memory → Pointers × Memory
unfolding touch touch_list
request (c, m) =
    let set_up : Memory =
      touch c.curl
        (record m { http_header = λ k. if k == c.curl then c.headers else m.http_header k }) in
    (c, touch_list (set_up.http_header c.curl) set_up)

unfoldable pub destroy : Pointers × Memory → Memory
unfolding free free_list
destroy (c, m) = free_list c.headers (free c.curl m)

pub data Call : Type 0 where
  sets_header clears_headers requests : Call

unfoldable pub apply : Call → Pointers × Memory → Pointers × Memory
unfolding set_header clear_headers request
apply sets_header s = set_header s
apply clears_headers s = clear_headers s
apply requests s = request s

unfoldable pub run_calls : List Call → Pointers × Memory → Pointers × Memory
run_calls [] s = s
run_calls (call ∷ calls) s = run_calls calls (apply call s)
