-- ===== src/HttpClient/Headers.antt =====
-- What `header_callback` stores.
use uni_serve_libhttp.Common.{
  ℕ, ◌≡◌, ◌≢◌, refl, ap, ◌∙◌, Bool, true, false, [], ◌∷◌, ◌++◌, Str, empty, insert, All, All-append,
  Lacks, Lacks-find, find-append, take-length-append, drop-length-append, arith,
}
use uni_serve_libhttp.HttpClient.{
  HttpClient, is_blank, is_blank_or_eol, trim_left, trim_right, store, header_callback,
}

-- All bytes of a text are in a set; its first, and its last, is not.
abbrev pub Within : (ℕ → Bool) → Str → Type 0
Within set = All (λ c. set c ≡ true)

abbrev pub Starts : (ℕ → Bool) → Str → Type 0
Starts set [] = ⊥
Starts set (c ∷ s) = set c ≡ false

abbrev pub Ends : (ℕ → Bool) → Str → Type 0
Ends set [] = ⊥
Ends set (c ∷ []) = set c ≡ false
Ends set (c ∷ (d ∷ s)) = Ends set (d ∷ s)

trim_left-append :
    (set : ℕ → Bool) (p s : Str) → Within set p → Starts set s → trim_left set (p ++ s) ≡ s
unfolding trim_left
trim_left-append set [] [] h a = absurd a
trim_left-append set [] (c ∷ s) h a = ground arith
trim_left-append set (x ∷ p) s (e, h) a = ground (arith, trim_left-append set p s h a)

trim_left-Within : (set : ℕ → Bool) (p : Str) → Within set p → trim_left set p ≡ []
unfolding trim_left
trim_left-Within set [] h = refl
trim_left-Within set (x ∷ p) (e, h) = ground (arith, trim_left-Within set p h)

trim_right-Within : (set : ℕ → Bool) (p : Str) → Within set p → trim_right set p ≡ []
unfolding trim_right
trim_right-Within set [] h = refl
trim_right-Within set (x ∷ p) (e, h) = ground (arith, trim_right-Within set p h)

trim_right-append :
    (set : ℕ → Bool) (s q : Str) → Within set q → Ends set s → trim_right set (s ++ q) ≡ s
unfolding trim_right
trim_right-append set [] q h a = absurd a
trim_right-append set (c ∷ []) q h a = ground (arith, trim_right-Within set q h)
trim_right-append set (c ∷ (d ∷ s)) q h a = ground (arith, trim_right-append set (d ∷ s) q h a)

Starts-append : (set : ℕ → Bool) (s q : Str) → Starts set s → Starts set (s ++ q)
Starts-append set [] q a = absurd a
Starts-append set (c ∷ s) q a = a

-- A text between blanks is trimmed to the text.
trimmed :
    (left right : ℕ → Bool) (p s q : Str)
    → Within left p
    → Within right q
    → Starts left s
    → Ends right s
    → trim_right right (trim_left left (p ++ (s ++ q))) ≡ s
trimmed left right p s q h k a z =
    ap (trim_right right) (trim_left-append left p (s ++ q) h (Starts-append left s q a))
    ∙ trim_right-append right s q k z

Lacks-Within : (s : Str) → Within is_blank s → Lacks b':' s
Lacks-Within [] h = tt
Lacks-Within (c ∷ s) (e, h) = (ground arith, Lacks-Within s h)

not-empty : (set : ℕ → Bool) (s : Str) → Starts set s → empty s ≡ false
not-empty set [] a = absurd a
not-empty set (c ∷ s) a = refl

header_callback_colon :
    (name rest : Str) (c : HttpClient)
    → Lacks b':' name
    → header_callback (name ++ (b':' ∷ rest)) c
      ≡ store
          (trim_right is_blank (trim_left is_blank name))
          (trim_right is_blank_or_eol (trim_left is_blank rest))
          c
unfolding header_callback
header_callback_colon name rest c h = rw (
  find-append b':' name rest h,
  header_callback,
  take-length-append name (b':' ∷ rest),
  drop-length-append name b':' rest,
)

header_callback_no_colon :
    (line : Str) (c : HttpClient) → Lacks b':' line → header_callback line c ≡ c
unfolding header_callback
header_callback_no_colon line c n = rw (Lacks-find b':' line n, header_callback)

trim_left-Within_other :
    (set within : ℕ → Bool) (s : Str) → Within within s → Within within (trim_left set s)
unfolding trim_left
trim_left-Within_other set within [] h = tt
trim_left-Within_other set within (c ∷ s) (e, h) =
    ground (arith, trim_left-Within_other set within s h, e, h)

-- A text of nothing but blanks and line ends is no value.
no_value :
    (s : Str) → Within is_blank_or_eol s → trim_right is_blank_or_eol (trim_left is_blank s) ≡ []
no_value s h =
    trim_right-Within is_blank_or_eol (trim_left is_blank s)
      (trim_left-Within_other is_blank is_blank_or_eol s h)

store_unvalued : (key : Str) (c : HttpClient) → store key [] c ≡ c
unfolding store
store_unvalued key c = ground arith

store_unnamed : (value : Str) (c : HttpClient) → store [] value c ≡ c
unfolding store
store_unnamed value c = refl

-- A name without ':' and a value, neither of which is empty or begins or ends with a blank, are
-- stored as they are, whatever blanks stand around them, and whatever blanks and line ends stand
-- behind the value. A line without ':', one with nothing but blanks for a name, and one with nothing
-- but blanks and line ends behind its first ':' store nothing.
pub header_callback_lem :
    (p key q r value e line rest name blank : Str) (c : HttpClient)
    → Within is_blank p
    → Within is_blank q
    → Within is_blank r
    → Within is_blank_or_eol e
    → Lacks b':' key
    → Starts is_blank key
    → Ends is_blank key
    → Starts is_blank value
    → Ends is_blank_or_eol value
    → Lacks b':' line
    → Lacks b':' name
    → Within is_blank_or_eol blank
    → (header_callback ((p ++ (key ++ q)) ++ (b':' ∷ (r ++ (value ++ e)))) c
        ≡ record c { response_headers = insert key value c.response_headers })
      × (header_callback line c ≡ c)
      × (header_callback (p ++ (b':' ∷ rest)) c ≡ c)
      × (header_callback (name ++ (b':' ∷ blank)) c ≡ c)
unfolding store trim_right
header_callback_lem p key q r value e line rest name blank c hp hq hr he l a z b y n m hb = (
  header_callback_colon (p ++ (key ++ q)) (r ++ (value ++ e)) c (
        All-append (λ x. x ≢ b':') p (key ++ q) (Lacks-Within p hp)
          (All-append (λ x. x ≢ b':') key q l (Lacks-Within q hq)))
      ∙ rw (
        trimmed is_blank is_blank p key q hp hq a z,
        trimmed is_blank is_blank_or_eol r value e hr he b y,
        not-empty is_blank key a,
        not-empty is_blank value b,
      ),
  header_callback_no_colon line c n,
  header_callback_colon p rest c (Lacks-Within p hp)
      ∙ (ap (λ s. store (trim_right is_blank s) value_of_rest c) (trim_left-Within is_blank p hp)
          ∙ store_unnamed value_of_rest c),
  header_callback_colon name blank c m
      ∙ (ap (λ v. store (trim_right is_blank (trim_left is_blank name)) v c) (no_value blank hb)
          ∙ store_unvalued (trim_right is_blank (trim_left is_blank name)) c),
)
  where
    value_of_rest : Str
    value_of_rest = trim_right is_blank_or_eol (trim_left is_blank rest)
