-- ===== src/Worker/Process/Accepted.antt =====
-- entrypoint/main.py and worker/worker.py together: what the gateway let through, the worker can
-- process.
use usrp_playground.Prelude.{
  ℕ, suc, ◌+◌, ◌*◌, ◌/◌, ◌≤◌, ◌<◌, ◌≡◌, ◌≢◌, refl, subst, get_elem?, ◌⊎◌, inl, inr, Bool, true,
  false, List, Option, none, some, ltb, length, ok, err, arith, Bool-cases, le→ltb,
}
use usrp_playground.Mimo.{Numpy, bad_buffer, is_mimo_blob}
use usrp_playground.Mimo.Shape.{
  HasShape, header_channels, decode_mimo_total, decode_siso_total, decode_siso_ragged,
}
use usrp_playground.Mimo.Content.{IsSampleAt, decode_siso-get, decode_mimo-get}
use usrp_playground.Gateway.Request.{
  Radio, Frame, bytes_frame, Submission, has_magic, accept, receive, check_payload, settle_mode,
  measure, limit_samples, submission,
}
use usrp_playground.Gateway.Request.Checks.{IsSound, SoundKind, IsAllowed, accept-IsSound}
use usrp_playground.Worker.Process.{
  Job, capture, capture_mimo, burst, burst_mimo, undecodable, meta_of, plan_listen, plan_burst,
  plan_job,
}

magic-is_mimo_blob :
    (blob : List ℕ) → 16 ≤ length blob → has_magic blob ≡ true → is_mimo_blob blob ≡ true
unfolding is_mimo_blob
magic-is_mimo_blob blob l h = ground arith

no_magic-is_mimo_blob : (blob : List ℕ) → has_magic blob ≡ false → is_mimo_blob blob ≡ false
unfolding is_mimo_blob
no_magic-is_mimo_blob blob h = ground arith

-- The job that a submission asks for. Each number of a signal is put together from its eight bytes of the
-- upload: the numbers of a 1-D upload follow each other, and after the header of 16 bytes those of a
-- channel do, one channel after another.
abbrev pub JobFor : (np : Numpy) → Submission → Option (ℕ × ℕ) → Job np → Type 0
JobFor np s (some (n, c)) (capture n' channel) =
    (c ≡ 1) × (n' ≡ s.n_samples) × (channel ≡ s.channel)
JobFor np s (some (n, c)) (capture_mimo n' c') = (1 < c) × (n' ≡ s.n_samples) × (c' ≡ c)
JobFor np s none (burst signal channel) =
    (has_magic s.blob ≡ false)
    × (length signal ≡ s.n_samples)
    × (channel ≡ s.channel)
    × ((i : ℕ) (z : np.C64) → get_elem? signal i ≡ some z → IsSampleAt np s.blob (i * 8) z)
JobFor np s none (burst_mimo m) =
    (has_magic s.blob ≡ true)
    × HasShape np m (header_channels s.blob) s.n_samples
    × ((ch i : ℕ) (col : List np.C64) (z : np.C64)
        → get_elem? m.columns ch ≡ some col
        → get_elem? col i ≡ some z
        → IsSampleAt np s.blob (16 + (ch * s.n_samples + i) * 8) z)
JobFor np s _ _ = ⊥

module _ (np : Numpy) (r : Radio) (s : Submission) (max_samples : ℕ) where
  listen_job :
      (n c : ℕ)
      → SoundKind r s (some (n, c)) (has_magic s.blob)
      → IsAllowed r s.n_samples
      → s.n_samples ≤ max_samples
      → (j : Job np) × (plan_listen np max_samples s.channel (n, c) ≡ ok j)
        × JobFor np s (some (n, c)) j
  unfolding plan_listen
  listen_job n c k a m = elim (Bool-cases (ltb 1 c)) [
    | inl many ↦ (capture_mimo n c, ground arith, (ground arith, k.0, refl))
    | inr one ↦ (capture n s.channel, ground arith, (ground arith, k.0, refl))
  ]

  siso_job :
      (k : ℕ)
      → length s.blob ≡ k * 4
      → has_magic s.blob ≡ false
      → SoundKind r s none false
      → s.n_samples ≤ max_samples
      → (j : Job np) × (plan_burst np max_samples s.channel s.blob ≡ ok j) × JobFor np s none j
  siso_job k whole no_magic kind m =
      let (signal, e, l) = decode_siso_total np s.blob k whole in
      let size : length signal ≡ s.n_samples = omega (arith, kind.1) in
      (
        burst signal s.channel,
        unfold plan_burst in
            rw (
              no_magic-is_mimo_blob s.blob no_magic,
              e,
              le→ltb max_samples (length signal) (omega arith),
            ),
        (no_magic, size, refl, λ i z at. decode_siso-get np s.blob signal i z e at),
      )

  mimo_job :
      has_magic s.blob ≡ true
      → SoundKind r s none true
      → s.n_samples ≤ max_samples
      → (j : Job np) × (plan_burst np max_samples s.channel s.blob ≡ ok j) × JobFor np s none j
  mimo_job magic kind m =
      let mimo = magic-is_mimo_blob s.blob kind.2 magic in
      let (signal, e, shape) = decode_mimo_total np s.blob mimo kind.5 in
      (
        burst_mimo signal,
        unfold plan_burst in
            rw
              (mimo, e, le→ltb max_samples signal.n_samples (omega (arith, shape.samples, kind.4))),
        (
          magic,
          rw (← kind.4) shape,
          λ ch i col z at in_col.
              subst (λ n. IsSampleAt np s.blob (16 + (ch * n + i) * 8) z) kind.4
                (decode_mimo-get np s.blob signal ch i col z e at in_col),
        ),
      )

-- The float32 payload of a 1-D upload is not cut in the middle of a float.
abbrev pub IsWhole : Submission → Type 0
IsWhole s = (k : ℕ) × (length s.blob ≡ k * 4)

job_of_kind :
    (np : Numpy) (r : Radio) (s : Submission) (max_samples : ℕ) (l : Option (ℕ × ℕ)) (magic : Bool)
    → s.listen_to ≡ l
    → has_magic s.blob ≡ magic
    → IsWhole s
    → IsSound r s
    → s.n_samples ≤ max_samples
    → (j : Job np) × (plan_job np max_samples (meta_of s) s.blob ≡ ok j) × JobFor np s l j
unfolding plan_job
job_of_kind np r s max_samples (some (n, c)) magic e h (k, whole) v m =
    let kind = v.kind in rw e (listen_job np r s max_samples n c (rw e at kind) v.allowed m)
job_of_kind np r s max_samples none true e h (k, whole) v m =
    let kind = v.kind in rw e (mimo_job np r s max_samples h (rw (e, h) at kind) m)
job_of_kind np r s max_samples none false e h (k, whole) v m =
    let kind = v.kind in rw e (siso_job np r s max_samples k whole h (rw (e, h) at kind) m)

-- A submission that passed the gateway's checks is one that the worker can process: with a limit
-- on samples that the worker shares, and floats that are whole, `process_f32` raises nothing
-- before it calls the radio, and it calls it with the channel and the numbers of samples and channels
-- that were accepted, and with a signal whose numbers are, one by one, the pairs of floats of the
-- upload.
pub accept-plan_job :
    (np : Numpy) (r : Radio) (first second : Option Frame) (s : Submission) (max_samples : ℕ)
    → accept r first second ≡ ok s
    → r.max_samples ≢ 0
    → r.max_samples ≤ max_samples
    → IsWhole s
    → (j : Job np) × (plan_job np max_samples (meta_of s) s.blob ≡ ok j) × JobFor np s s.listen_to j
accept-plan_job np r first second s max_samples e limited shared whole =
    let v = (accept-IsSound r first second s e).0 in
    let fits : s.n_samples ≤ max_samples = ground (arith, v.allowed) in
    job_of_kind np r s max_samples s.listen_to (has_magic s.blob) refl refl whole v fits

-- The gateway does not look whether the bytes of a 1-D upload are whole floats. Any binary upload
-- without the magic that is long enough for a sample, within the limits, and no multiple of four
-- bytes is accepted into the queue, and cannot be decoded by the worker.
pub accept_ragged :
    (np : Numpy) (r : Radio) (second : Option Frame) (blob : List ℕ) (max_samples k e : ℕ)
    → has_magic blob ≡ false
    → length blob ≡ k * 4 + suc e
    → e < 3
    → 8 ≤ length blob
    → length blob ≤ r.max_upload
    → (r.max_samples ≡ 0) ⊎ (length blob / 8 ≤ r.max_samples)
    → (s : Submission) × (accept r (some (bytes_frame blob)) second ≡ ok s)
      × (plan_job np max_samples (meta_of s) s.blob ≡ err (undecodable bad_buffer))
accept_ragged np r second blob max_samples k e h size small enough fits limit = (
  record { blob = blob; channel = 0; listen_to = none; n_samples = length blob / 8 },
  unfold accept receive check_payload settle_mode measure limit_samples submission in ground arith,
  unfold plan_job plan_burst in
      rw (no_magic-is_mimo_blob blob h, decode_siso_ragged np blob k e size small),
)
