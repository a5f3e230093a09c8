-- ===== src/Worker/Process.antt =====
-- worker/worker.py, `process_f32`, up to the call into the radio: what the worker makes of the
-- files that the gateway wrote.
pub mod Accepted
use usrp_playground.Prelude.{
  ℕ, ◌≡◌, Bool, true, false, ◌||◌, List, [], ◌∷◌, Option, none, some, ltb, ◌==◌, if◌then◌else◌,
  length, Result, ok, err, ◌>>=◌, ◌>>◌, raise_if,
}
use usrp_playground.Mimo.{Numpy, Matrix, Error, is_mimo_blob, decode_mimo, decode_siso}
use usrp_playground.Gateway.Request.{Submission}

pub data Failure : Type 0 where
  invalid_listen too_large : Failure
  undecodable : Error → Failure

-- `meta.json`, where `listen` holds `n_samples` and `channels`.
pub record Meta : Type 0 where
  pub channel : ℕ
  pub listen : Option (ℕ × ℕ)

-- What the gateway wrote.
abbrev pub meta_of : Submission → Option Meta
meta_of s = some (record { channel = s.channel; listen = s.listen_to })

-- A missing or unreadable file counts as `{}`.
abbrev pub meta_or_empty : Option Meta → Meta
meta_or_empty none = record { channel = 0; listen = none }
meta_or_empty (some m) = m

abbrev pub lift_error {ℓ} : {A : Type ℓ} → Result Error A → Result Failure A
lift_error (ok a) = ok a
lift_error (err e) = err (undecodable e)

module _ (np : Numpy) where
  -- The call that is handed to `_with_rf_retry`.
  pub data Job : Type 0 where
    capture : (n_samples channel : ℕ) → Job
    capture_mimo : (n_samples n_channels : ℕ) → Job
    burst : (signal : List np.C64) (channel : ℕ) → Job
    burst_mimo : (signal : Matrix np) → Job

  unfoldable pub plan_listen : ℕ → ℕ → ℕ × ℕ → Result Failure Job
  plan_listen max_samples channel (n_samples, channels) = do
    raise_if (n_samples == 0 || ltb max_samples n_samples) invalid_listen
    let n_channels = if channels == 0 then 1 else channels
    ok (if ltb 1 n_channels then capture_mimo n_samples n_channels else capture n_samples channel)

  unfoldable pub plan_burst : ℕ → ℕ → List ℕ → Result Failure Job
  plan_burst max_samples channel blob =
      if is_mimo_blob blob
      then (do
        m ← lift_error (decode_mimo np blob)
        raise_if (ltb max_samples m.n_samples) too_large
        ok (burst_mimo m))
      else (do
        s ← lift_error (decode_siso np blob)
        raise_if (ltb max_samples (length s)) too_large
        ok (burst s channel))

  unfoldable pub plan_job : ℕ → Option Meta → List ℕ → Result Failure Job
  plan_job max_samples meta blob =
      let m = meta_or_empty meta in
      elim m.listen [
        | some l ↦ plan_listen max_samples m.channel l
        | none ↦ plan_burst max_samples m.channel blob
      ]
