-- ===== src/Daemon/Receive.antt =====
-- usrp_testbed_library/rx_daemon.py, `receive_with_delay`. The streamer is UHD's: `recv` gives what each
-- of its calls returns, and `clock` the time of the radio at each look. Times are in ticks, and `soon` is
-- the least time ahead of a command, 0.05 s.
pub mod Heard
use usrp_playground.Prelude.{
  ℕ, zero, suc, ◌+◌, ◌-◌, ◌/◌, Bool, true, false, ◌||◌, List, [], ◌∷◌, ◌++◌, Option, none, some,
  length, take, min, max, ltb, if◌then◌else◌, Result, ok, err,
}
use usrp_playground.Daemon.Signal.{Samples}

pub data RxProblem : Type 0 where
  not_configured timed_out stream_error stalled : RxProblem

-- What is sent to the streamer: the number of samples and the time.
pub data StreamCommand : Type 0 where
  start_cont : ℕ → StreamCommand
  stop_cont : StreamCommand
  num_done : ℕ → ℕ → StreamCommand

-- The error code of a call of `recv`.
pub data ErrorCode : Type 0 where
  no_error timeout other : ErrorCode

module _ (sp : Samples) where
  -- `rx_buffer`, a row for each channel, with the number of samples that are new.
  pub record RxCall : Type 0 where
    pub error_code : ErrorCode
    pub n_rx : ℕ
    pub rx_buffer : List (List sp.Sample)

  -- `rx_signal[i, samples_received:samples_received + n] = rx_buffer[i, :n]`, of what is filled so far.
  unfoldable pub append_rows :
      List (List sp.Sample) → List (List sp.Sample) → ℕ → List (List sp.Sample)
  append_rows [] cs n = []
  append_rows (r ∷ rs) [] n = r ∷ append_rows rs [] n
  append_rows (r ∷ rs) (c ∷ cs) n = (r ++ take n c) ∷ append_rows rs cs n

  unfoldable pub empty_rows : ℕ → List (List sp.Sample)
  empty_rows zero = []
  empty_rows (suc n) = [] ∷ empty_rows n

  module _ (recv : ℕ → RxCall) where
    -- At most so many calls, from call `i` on, until data comes, or until nothing does. They give the
    -- number of the next call.
    unfoldable pub read_until_data : ℕ → ℕ → ℕ
    read_until_data zero i = i
    read_until_data (suc k) i =
        let rest = read_until_data k (i + 1) in
        elim (recv i).error_code [ no_error ↦ i + 1 | timeout ↦ rest | other ↦ rest ]

    unfoldable pub read_until_timeout : ℕ → ℕ → ℕ
    read_until_timeout zero i = i
    read_until_timeout (suc k) i =
        let rest = read_until_timeout k (i + 1) in
        elim (recv i).error_code [ no_error ↦ rest | timeout ↦ i + 1 | other ↦ rest ]

    -- The warm-up.
    unfoldable pub warm_up : ℕ
    unfolding read_until_data read_until_timeout
    warm_up = read_until_timeout 8 (read_until_data 6 0)

    -- The loop, which stops by itself after a number of rounds.
    unfoldable pub capture_loop :
        ℕ → ℕ → ℕ → ℕ → List (List sp.Sample) → Result RxProblem (List (List sp.Sample))
    capture_loop n_requested zero i received rows =
        if ltb received n_requested then err stalled else ok rows
    capture_loop n_requested (suc rounds) i received rows =
        let n_to_copy = min (recv i).n_rx (n_requested - received) in
        let copied = append_rows rows (recv i).rx_buffer n_to_copy in
        let rest = capture_loop n_requested rounds (i + 1) (received + n_to_copy) copied in
        if ltb received n_requested
        then elim (recv i).error_code [
          | no_error ↦ rest
          | timeout ↦ err timed_out
          | other ↦ err stream_error
        ]
        else ok rows

    module _ (clock : ℕ → ℕ) (soon : ℕ) where
      -- The time of the capture_loop, which is not before it can be reached.
      unfoldable pub rx_start : ℕ → ℕ
      rx_start delay =
          let now = clock 2 in
          if ltb (clock 0 + delay) (now + soon) then now + soon else clock 0 + delay

      -- `receive_with_delay`: the streamer by its `get_max_num_samps`, the number of channels, and
      -- `_needs_warmup`. The commands come with the result.
      unfoldable pub receive_with_delay :
          Option ℕ
          → ℕ
          → Bool
          → ℕ
          → ℕ
          → List StreamCommand × Result RxProblem (List (List sp.Sample))
      unfolding rx_start empty_rows
      receive_with_delay none n_ch needs_warmup delay n_requested = ([], err not_configured)
      receive_with_delay (some chunk_size) n_ch needs_warmup delay n_requested =
          let warm = ltb 1 n_ch || needs_warmup in
          let warming = if warm then start_cont (clock 1 + soon) ∷ stop_cont ∷ [] else [] in
          let first = if warm then warm_up else 0 in
          let max_iterations = n_requested / chunk_size + 100 in
          (
            warming ++ num_done n_requested (rx_start delay) ∷ [],
            capture_loop n_requested max_iterations first 0 (empty_rows n_ch),
          )
