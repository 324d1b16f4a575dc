-- ===== src/Heart/Period.antt =====
-- How often the loops of the client and of the server come round.
use frrpc.Prelude.{ℕ, zero, suc, false, true, ◌≡◌, refl, arith, ◌≤◌, if◌then◌else◌}
use frrpc.Heart.{server_round, client_round, ltb}

-- The counter after `n` rounds of the server's loop, from 0.
pub counter_after : ℕ → ℕ → ℕ
counter_after timeout zero = 0
counter_after timeout (suc n) = (server_round timeout (counter_after timeout n)).1

counter_lem : (timeout n : ℕ) → n ≤ timeout → counter_after timeout n ≡ n
unfolding counter_after server_round
counter_lem timeout zero h = refl
counter_lem timeout (suc n) h = ground (arith, counter_lem timeout n)

-- From a reset counter the server checks in no round before the one after `timeout` others, and in
-- that one it checks and resets. A client with the same timeout decides alike in each of its
-- rounds, which are a quarter as long: four hearts are due from one check to the next.
pub heart_period :
    (timeout n : ℕ)
    → n ≤ timeout
    → (server_round timeout (counter_after timeout n)
        ≡ (if ltb n timeout then (false, suc n) else (true, 0)))
      × (client_round timeout (counter_after timeout n)
          ≡ server_round timeout (counter_after timeout n))
unfolding server_round client_round
heart_period timeout n h = ground (arith, counter_lem timeout n h)
