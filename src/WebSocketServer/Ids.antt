-- ===== src/WebSocketServer/Ids.antt =====
-- The client ids that `generateClientId` hands out.
use mathlib.Core.List.{append_cancel_left}
use uni_serve_libhttp.Common.{
  ℕ, zero, suc, ◌+◌, ◌%◌, ◌^◌, ◌<◌, ◌≡◌, ◌≢◌, arith, Str, bytes, to_string_inj,
}
use uni_serve_libhttp.WebSocketServer.{Server, generate_client_id}

module _ {W : Type 0} where
  -- The server after `n` calls.
  pub after_calls : ℕ → Server W → Server W
  after_calls zero v = v
  after_calls (suc n) v = (generate_client_id (after_calls n v)).1

  -- The id that the call after `n` others returns.
  abbrev pub id_at : ℕ → Server W → Str
  id_at n v = (generate_client_id (after_calls n v)).0

  counter-after_calls :
      (n : ℕ) (v : Server W)
      → v.counter < 2 ^ 64
      → (after_calls n v).counter ≡ (v.counter + n) % 2 ^ 64
  unfolding after_calls generate_client_id
  counter-after_calls zero v h = omega arith
  counter-after_calls (suc n) v h = omega (arith, counter-after_calls n v h)

  -- With a 64-bit counter, no two of the calls return one id, in any run of 2^64 calls.
  pub id_at_inj :
      (m n : ℕ) (v : Server W) → v.counter < 2 ^ 64 → m < n → n < m + 2 ^ 64 → id_at m v ≢ id_at n v
  unfolding generate_client_id
  id_at_inj m n v h l d e =
      let same =
        to_string_inj (((after_calls m v).counter + 1) % 2 ^ 64)
          (((after_calls n v).counter + 1) % 2 ^ 64) (append_cancel_left (bytes "client_") _ _ e) in
      absurd (omega (arith, same, counter-after_calls m v h, counter-after_calls n v h))
