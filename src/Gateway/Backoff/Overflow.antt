-- ===== src/Gateway/Backoff/Overflow.antt =====
-- The wait of the gateway before a reconnection, after very many attempts (src/gateway/gateway.cc).
use rover_ops_jm.Prelude.{ℕ, ◌-◌, ◌*◌, ◌≤◌, Bool, true, false, ◌≡◌, refl, arith}
use rover_ops_jm.Prelude.Ints.{ℤ, pos, negsuc, min_int, int32_large}
use rover_ops_jm.Gateway.State.{Config}
use rover_ops_jm.Gateway.Connection.{delay_ms}

abbrev pub is_negative : ℤ → Bool
is_negative (pos n) = false
is_negative (negsuc n) = true

min-negative : (k : ℕ) (a : ℤ) → is_negative (min_int (negsuc k) a) ≡ true
min-negative k (pos n) = refl
min-negative k (negsuc n) = ground arith

-- From the attempt 214749 on, which takes about five months of waits of a minute, the product of the
-- wait leaves the 32 bits, and the wait is negative, up to the attempt 429496: the timer is due at
-- once, where the longest wait was meant.
pub delay_ms-overflow :
    (c : Config) (attempts : ℕ)
    → 214749 ≤ attempts
    → attempts ≤ 429496
    → is_negative (delay_ms c attempts) ≡ true
unfolding delay_ms
delay_ms-overflow c attempts low high =
    rw (int32_large (attempts * 10000) (omega arith) (omega arith))
      (ground (arith, min-negative (4294967295 - attempts * 10000) c.reconnect_max_delay_ms))
