-- ===== src/Daemon/Transmit.antt =====
-- usrp_testbed_library/tx_daemon.py, `transmit_with_delay`. The streamer is UHD's: `accept` gives, for
-- each call of `send` and the number of samples it offers, the number that `send` returns.
pub mod Loop
pub mod Delivery
pub mod Burst
pub mod Framing
use usrp_playground.Prelude.{
  ℕ, zero, suc, ◌+◌, ◌-◌, Bool, true, false, List, [], ◌∷◌, ◌++◌, Option, none, some, length, take,
  drop, min, get_elem?, ltb, ◌==◌, if◌then◌else◌,
}
use usrp_playground.Daemon.Signal.{Samples}
use usrp_playground.Daemon.Store.{max_channel}

pub data Outcome : Type 0 where
  not_ready no_such_channel timed_out out_of_fuel : Outcome
  sent : ℕ → Outcome

module _ (sp : Samples) where
  -- One call of `send`: the metadata, the buffer, and what was accepted of it.
  pub record Send : Type 0 where
    pub start_of_burst : Bool
    pub end_of_burst : Bool
    pub time_spec : Option ℕ
    pub buffer : List (List sp.Sample)
    pub accepted : ℕ

  abbrev pub row_or_empty : Option (List sp.Sample) → List sp.Sample
  row_or_empty none = []
  row_or_empty (some r) = r

  -- `self.tx_signal[self.channels, first:last]`.
  unfoldable pub tx_buffer : List (List sp.Sample) → List ℕ → ℕ → ℕ → List (List sp.Sample)
  tx_buffer tx [] first last = []
  tx_buffer tx (c ∷ cs) first last =
      take (last - first) (drop first (row_or_empty (get_elem? tx c))) ∷ tx_buffer tx cs first last

  -- `self.tx_signal.shape[1]`.
  unfoldable pub n_columns : List (List sp.Sample) → ℕ
  n_columns [] = 0
  n_columns (r ∷ rs) = length r

module _ (sp : Samples) (accept : ℕ → ℕ → ℕ) (chunk_size : ℕ) (tx : List (List sp.Sample))
    (channels : List ℕ) (n_requested start : ℕ) where
  abbrev pub final_sample_idx : ℕ → ℕ
  final_sample_idx done = min (done + chunk_size) n_requested

  -- The body of the loop, in the given round and after `done` samples.
  unfoldable pub send_chunk : ℕ → Bool → ℕ → Send sp
  unfolding tx_buffer
  send_chunk round first_chunk done =
      let final = final_sample_idx done in
      record {
        start_of_burst = first_chunk;
        end_of_burst = final == n_requested;
        time_spec = if first_chunk then some start else none;
        buffer = tx_buffer sp tx channels done final;
        accepted = accept round (final - done);
      }

  -- The loop, with fuel.
  unfoldable pub send_chunks : ℕ → ℕ → Bool → ℕ → List (Send sp) × Outcome
  unfolding send_chunk
  send_chunks zero round first_chunk done =
      if ltb done n_requested then ([], out_of_fuel) else ([], sent done)
  send_chunks (suc fuel) round first_chunk done =
      let chunk = send_chunk round first_chunk done in
      let rest = send_chunks fuel (round + 1) false (done + chunk.accepted) in
      let next = if chunk.accepted == 0 then ([], timed_out) else rest in
      if ltb done n_requested then (chunk ∷ next.0, next.1) else ([], sent done)

module _ (sp : Samples) (accept : ℕ → ℕ → ℕ) where
  -- `transmit_with_delay`: `streamer` gives `get_max_num_samps`, where there is one. A loop of as many
  -- rounds as there are samples is enough.
  unfoldable pub transmit_with_delay :
      Option ℕ → Option (List (List sp.Sample)) → List ℕ → ℕ → ℕ → List (Send sp) × Outcome
  unfolding send_chunks n_columns max_channel
  transmit_with_delay (some chunk_size) (some tx) channels now delay =
      let n = n_columns sp tx in
      if ltb (max_channel sp channels) (length tx)
      then send_chunks sp accept chunk_size tx channels n (now + delay) n 0 true 0
      else ([], no_such_channel)
  transmit_with_delay _ _ channels now delay = ([], not_ready)
