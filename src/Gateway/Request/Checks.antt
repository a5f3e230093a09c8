-- ===== src/Gateway/Request/Checks.antt =====
-- entrypoint/main.py: what holds of every submission that the checks let through.
use usrp_playground.Prelude.{
  ℕ, ◌+◌, ◌*◌, ◌/◌, ◌≤◌, ◌<◌, ◌≡◌, refl, ◌⊎◌, inl, inr, Bool, true, false, List, [], Option, none,
  some, length, Result, ok, err, ◌>>=◌, arith, >>=-eq-ok,
}
use usrp_playground.Json.{Json}
use usrp_playground.Mimo.Shape.{header_channels, header_samples}
use usrp_playground.Gateway.Request.{
  Mode, siso, mimo, listen, Reject, bad_handshake, Radio, Handshake, Frame, Plan, Submission,
  select_channel, announce_channels, request_samples, plan_for, read_handshake, receive, after_ack,
  second_frame, has_magic, settle_mode, measure, limit_samples, submission, check_payload, accept,
  disconnect, text_frame, bytes_frame, other_frame, mode_of,
}
use usrp_playground.Gateway.Request.Announced.{
  IsAnnounced, receive-PlanAnnounced, check_payload-IsAnnounced,
}

-- A channel of the inventory, where there is one.
abbrev pub IsChannel : Radio → ℕ → Type 0
IsChannel r c = (r.n_inv_channels ≡ 0) ⊎ (c < r.n_inv_channels)

-- A number of samples that the settings allow.
abbrev pub IsAllowed : Radio → ℕ → Type 0
IsAllowed r n = (0 < n) × ((r.max_samples ≡ 0) ⊎ (n ≤ r.max_samples))

abbrev pub IsMimoCount : Radio → ℕ → Type 0
IsMimoCount r c = (0 < c) × (c ≤ r.mimo_max_channels)

abbrev PlanFor : Radio → Plan → Mode → Type 0
PlanFor r p siso = IsChannel r p.selected_channel
PlanFor r p mimo = IsMimoCount r p.announced_channels × (r.mimo_enabled ≡ true)
PlanFor r p listen =
    IsChannel r p.selected_channel
    × IsAllowed r p.listen_samples
    × IsMimoCount r p.announced_channels
    × ((p.announced_channels ≡ 1) ⊎ ((r.mimo_enabled ≡ true) × (p.selected_channel ≡ 0)))

select_channel-IsChannel :
    (r : Radio) (v : Option Json) (c : ℕ) → select_channel r v ≡ ok c → IsChannel r c
unfolding select_channel
select_channel-IsChannel r v c h = ground arith

announce_channels-IsMimoCount :
    (r : Radio) (v : Option Json) (d c : ℕ) → announce_channels r v d ≡ ok c → IsMimoCount r c
unfolding announce_channels
announce_channels-IsMimoCount r v d c h = ground arith

request_samples-IsAllowed :
    (r : Radio) (v : Option Json) (n : ℕ) → request_samples r v ≡ ok n → IsAllowed r n
unfolding request_samples
request_samples-IsAllowed r v n h = ground arith

plan_for-PlanFor :
    (r : Radio) (h : Handshake) (c : ℕ) (m : Mode) (p : Plan)
    → IsChannel r c
    → plan_for r h c m ≡ ok p
    → (p.mode ≡ m) × PlanFor r p m
unfolding plan_for
plan_for-PlanFor r h c siso p ch e = ground arith
plan_for-PlanFor r h c mimo p ch e =
    ground (arith, announce_channels-IsMimoCount r h.channels 0 p.announced_channels)
plan_for-PlanFor r h c listen p ch e = ground (
  arith,
  request_samples-IsAllowed r h.n_samples p.listen_samples,
  announce_channels-IsMimoCount r h.channels 1 p.announced_channels,
)

read_handshake-PlanFor :
    (r : Radio) (h : Handshake) (p : Plan) → read_handshake r h ≡ ok p → PlanFor r p p.mode
unfolding read_handshake
read_handshake-PlanFor r h p e = by_mode (mode_of h.mode) e
  where
    by_mode :
        (m : Option Mode)
        → ◌≡◌ {A = Result Reject Plan}
            (elim m [
              | none ↦ err bad_handshake
              | some mode ↦ select_channel r h.channel >>= λ channel. plan_for r h channel mode
            ])
            (ok p)
        → PlanFor r p p.mode
    by_mode none d = cc
    by_mode (some m) d =
        let (c, picked, made) =
          >>=-eq-ok (select_channel r h.channel) (λ (c : ℕ). plan_for r h c m) d in
        let (same, good) =
          plan_for-PlanFor r h c m p (select_channel-IsChannel r h.channel c picked) made in
        rw same good

receive-PlanFor :
    (r : Radio) (first second : Option Frame) (p : Plan) (blob : List ℕ)
    → receive r first second ≡ ok (p, blob)
    → PlanFor r p p.mode × ((p.mode ≡ listen) → blob ≡ [])
unfolding receive after_ack second_frame
receive-PlanFor r none second p blob e = cc
receive-PlanFor r (some disconnect) second p blob e = cc
receive-PlanFor r (some other_frame) second p blob e = cc
receive-PlanFor r (some (bytes_frame b)) second p blob e = ground arith
receive-PlanFor r (some (text_frame size none)) second p blob e = ground arith
receive-PlanFor r (some (text_frame size (some h))) second p blob e =
    ground (arith, read_handshake-PlanFor r h p)

-- What the checks promise of a submission, by its kind.
abbrev pub SoundKind : Radio → Submission → Option (ℕ × ℕ) → Bool → Type 0
SoundKind r s (some (n, c)) _ =
    (n ≡ s.n_samples)
    × (s.blob ≡ [])
    × IsChannel r s.channel
    × IsMimoCount r c
    × ((c ≡ 1) ⊎ ((r.mimo_enabled ≡ true) × (s.channel ≡ 0)))
SoundKind r s none true =
    (r.mimo_enabled ≡ true)
    × (s.channel ≡ 0)
    × (16 ≤ length s.blob)
    × IsMimoCount r (header_channels s.blob)
    × (header_samples s.blob ≡ s.n_samples)
    × (header_channels s.blob * header_samples s.blob * 8 + 16 ≤ length s.blob)
SoundKind r s none false = IsChannel r s.channel × (s.n_samples ≡ length s.blob / 8)

pub record IsSound (r : Radio) (s : Submission) : Type 0 where
  pub fits : length s.blob ≤ r.max_upload
  pub allowed : IsAllowed r s.n_samples
  pub kind : SoundKind r s s.listen_to (has_magic s.blob)

module _ (r : Radio) (p : Plan) (blob : List ℕ) (s : Submission) where
  check_payload_siso :
      p.mode ≡ siso → PlanFor r p siso → check_payload r p blob ≡ ok s → IsSound r s
  unfolding check_payload settle_mode measure limit_samples submission
  check_payload_siso m f e = ground arith

  check_payload_mimo :
      p.mode ≡ mimo → PlanFor r p mimo → check_payload r p blob ≡ ok s → IsSound r s
  unfolding check_payload settle_mode measure limit_samples submission
  check_payload_mimo m f e = ground arith

  check_payload_listen :
      p.mode ≡ listen → blob ≡ [] → PlanFor r p listen → check_payload r p blob ≡ ok s → IsSound r s
  unfolding check_payload settle_mode measure limit_samples submission
  check_payload_listen m b f e = ground arith

Mode-cases : (m : Mode) → (m ≡ siso) ⊎ ((m ≡ mimo) ⊎ (m ≡ listen))
Mode-cases siso = inl refl
Mode-cases mimo = inr (inl refl)
Mode-cases listen = inr (inr refl)

check_payload-IsSound :
    (r : Radio) (p : Plan) (blob : List ℕ) (s : Submission)
    → PlanFor r p p.mode
    → ((p.mode ≡ listen) → blob ≡ [])
    → check_payload r p blob ≡ ok s
    → IsSound r s
check_payload-IsSound r p blob s f b e = elim (Mode-cases p.mode) [
  | inl m ↦ check_payload_siso r p blob s m (rw m at f) e
  | inr (inl m) ↦ check_payload_mimo r p blob s m (rw m at f) e
  | inr (inr m) ↦ check_payload_listen r p blob s m (b m) (rw m at f) e
]

-- Of every submission that reaches the queue: its size is within the limit on uploads and its number of
-- samples within that on samples. A listen request goes to a channel that the inventory has, to the first
-- for more than one, and its number of channels is within the limit; it is for more than one only
-- where MIMO is enabled. A payload with the magic is only there where MIMO is enabled, holds the samples
-- of its header, and the channels of its header are within the limit; another one goes to a channel that
-- the inventory has. A handshake is no longer than 4096 characters; where it says MIMO, the payload has the
-- magic and as many channels as it announced; where it says listen, the samples are those that it asked
-- for; and only then is the submission a listen request.
pub accept-IsSound :
    (r : Radio) (first second : Option Frame) (s : Submission)
    → accept r first second ≡ ok s
    → IsSound r s × IsAnnounced first s
unfolding accept
accept-IsSound r first second s e =
    let ((p, blob), got, checked) =
      >>=-eq-ok (receive r first second) (λ (x : Plan × List ℕ). check_payload r x.0 x.1) e in
    let (f, b) = receive-PlanFor r first second p blob got in
    (
      check_payload-IsSound r p blob s f b checked,
      check_payload-IsAnnounced r first p blob s (receive-PlanAnnounced r first second p blob got)
          checked,
    )
