-- ===== src/Daemon/Transmit/Loop.antt =====
-- How the loop of `transmit_with_delay` ends.
use usrp_playground.Prelude.{
  ℕ, zero, suc, ◌+◌, ◌-◌, ◌≡◌, ◌≢◌, ◌≤◌, ◌<◌, Bool, true, false, List, Option, none, some, min,
  length, arith,
}
use usrp_playground.Daemon.Signal.{Samples}
use usrp_playground.Daemon.Store.{max_channel}
use usrp_playground.Daemon.Transmit.{
  Outcome, out_of_fuel, sent, Send, n_columns, send_chunk, send_chunks, transmit_with_delay,
}

module _ (sp : Samples) (accept : ℕ → ℕ → ℕ) (chunk_size : ℕ) (tx : List (List sp.Sample))
    (channels : List ℕ) (n_requested start : ℕ) where
  abbrev loop : ℕ → ℕ → Bool → ℕ → List (Send sp) × Outcome
  loop = send_chunks sp accept chunk_size tx channels n_requested start

  -- Each round sends at least one sample, or is the last.
  pub send_chunks-ne-out_of_fuel :
      (fuel round : ℕ) (first_chunk : Bool) (done : ℕ)
      → n_requested ≤ done + fuel
      → (loop fuel round first_chunk done).1 ≢ out_of_fuel
  unfolding send_chunks
  send_chunks-ne-out_of_fuel zero round first_chunk done h = ground arith
  send_chunks-ne-out_of_fuel (suc fuel) round first_chunk done h =
      unfold send_chunk in
      ground (
        arith,
        send_chunks-ne-out_of_fuel fuel (round + 1) false
            (done + accept round (min (done + chunk_size) n_requested - done)),
      )

  -- A streamer that never times out is given everything.
  pub send_chunks-eq-sent :
      (fuel round : ℕ) (first_chunk : Bool) (done : ℕ)
      → 0 < chunk_size
      → ((r k : ℕ) → accept r k ≤ k)
      → ((r k : ℕ) → 0 < k → 0 < accept r k)
      → n_requested ≤ done + fuel
      → done ≤ n_requested
      → (loop fuel round first_chunk done).1 ≡ sent n_requested
  unfolding send_chunks
  send_chunks-eq-sent zero round first_chunk done c bounded live h le = ground arith
  send_chunks-eq-sent (suc fuel) round first_chunk done c bounded live h le =
      unfold send_chunk in
      ground (
        arith,
        bounded round (min (done + chunk_size) n_requested - done),
        live round (min (done + chunk_size) n_requested - done),
        send_chunks-eq-sent fuel (round + 1) false
            (done + accept round (min (done + chunk_size) n_requested - done)) c bounded live,
      )

module _ (sp : Samples) (accept : ℕ → ℕ → ℕ) where
  -- `transmit_with_delay` always ends within as many rounds as there are samples, whatever `send`
  -- returns.
  pub transmit_with_delay-ne-out_of_fuel :
      (streamer : Option ℕ) (tx_signal : Option (List (List sp.Sample))) (channels : List ℕ)
      (now delay : ℕ)
      → (transmit_with_delay sp accept streamer tx_signal channels now delay).1 ≢ out_of_fuel
  unfolding transmit_with_delay
  transmit_with_delay-ne-out_of_fuel none tx_signal channels now delay = cc
  transmit_with_delay-ne-out_of_fuel (some chunk_size) none channels now delay = cc
  transmit_with_delay-ne-out_of_fuel (some chunk_size) (some tx) channels now delay = ground (
    arith,
    send_chunks-ne-out_of_fuel sp accept chunk_size tx channels (n_columns sp tx) (now + delay)
        (n_columns sp tx) 0 true 0,
  )

  -- On a streamer that takes chunks of at least one sample and whose `send` accepts some but no more
  -- than all of the samples it is offered, a burst over channels that `tx_signal` has returns, with the
  -- number of samples of `tx_signal`.
  pub transmit_with_delay-eq-sent :
      (chunk_size : ℕ) (tx : List (List sp.Sample)) (channels : List ℕ) (now delay : ℕ)
      → 0 < chunk_size
      → ((r k : ℕ) → accept r k ≤ k)
      → ((r k : ℕ) → 0 < k → 0 < accept r k)
      → max_channel sp channels < length tx
      → (transmit_with_delay sp accept (some chunk_size) (some tx) channels now delay).1
        ≡ sent (n_columns sp tx)
  unfolding transmit_with_delay
  transmit_with_delay-eq-sent chunk_size tx channels now delay c bounded live h = ground (
    arith,
    send_chunks-eq-sent sp accept chunk_size tx channels (n_columns sp tx) (now + delay)
        (n_columns sp tx) 0 true 0 c bounded live,
  )
