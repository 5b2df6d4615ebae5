-- ===== src/Client/Delay.antt =====
-- The reconnection delays.
use drishtiscope_oss.Common.{ℕ, suc, ◌≤◌, ◌≡◌, arith}
use drishtiscope_oss.Client.{delay_after}

-- The delay grows with the number of attempts, from 500 ms up to 5000 ms, and stays there.
pub delay_bounds :
    (n : ℕ)
    → (500 ≤ delay_after n)
      × (delay_after n ≤ 5000)
      × (delay_after n ≤ delay_after (suc n))
      × (3 ≤ n → delay_after n ≡ 5000)
delay_bounds n = (ground arith, ground arith, ground arith, λ h. ground arith)
