-- ===== src/Examples/Captures.antt =====
-- A capture of the RX daemon over two channels.
use usrp_playground.Prelude.{
  ℕ, zero, suc, ◌+◌, ◌/◌, ◌≡◌, ◌≤◌, refl, false, List, [], ◌∷◌, ◌++◌, ◌==◌, if◌then◌else◌, ok,
  arith,
}
use usrp_playground.Daemon.Receive.{
  RxCall, no_error, timeout, num_done, warm_up, append_rows, capture_loop, receive_with_delay,
}
use usrp_playground.Daemon.Receive.Heard.{
  IsFilled, IsHeard, received_now, warming, receive_with_delay-IsHeard,
}
use usrp_playground.Examples.Transmissions.{numbers}

-- Three samples a call; the third call of the warm-up finds nothing more.
abbrev three_each : ℕ → RxCall numbers
three_each i = record {
  error_code = if i == 2 then timeout else no_error;
  n_rx = 3;
  rx_buffer = (i ∷ (i + 10) ∷ (i + 20) ∷ []) ∷ ((i + 30) ∷ (i + 40) ∷ (i + 50) ∷ []) ∷ [];
}

three_each-IsFilled : (i : ℕ) → IsFilled numbers 2 (three_each i)
three_each-IsFilled i zero h = omega arith
three_each-IsFilled i (suc zero) h = omega arith
three_each-IsFilled i (suc (suc j)) h = absurd (omega arith)

abbrev looks : ℕ → ℕ
looks i = 1000 + i

abbrev two_rows : List (List ℕ)
two_rows = (3 ∷ 13 ∷ 23 ∷ 4 ∷ []) ∷ (33 ∷ 43 ∷ 53 ∷ 34 ∷ []) ∷ []

captured : (received_now numbers three_each looks 50 64 2 false 500 4).1 ≡ ok two_rows
unfolding receive_with_delay warm_up append_rows capture_loop
captured = refl

receive_with_delay-IsHeard_example :
    ((received_now numbers three_each looks 50 64 2 false 500 4).0
      ≡ warming numbers three_each looks 50 64 2 false 500 4 ++ num_done 4 1500 ∷ [])
    × ((m : ℕ) × (m ≤ 4 / 64 + 100)
        × IsHeard numbers three_each looks 50 64 2 false 500 4 m two_rows)
receive_with_delay-IsHeard_example =
    receive_with_delay-IsHeard numbers three_each looks 50 64 2 false 500 4 two_rows
      three_each-IsFilled captured
