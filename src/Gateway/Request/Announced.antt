-- ===== src/Gateway/Request/Announced.antt =====
-- entrypoint/main.py: what a handshake announced, and what was accepted.
use usrp_playground.Prelude.{
  ℕ, ◌≤◌, ◌≡◌, refl, inl, inr, Option-cases, true, List, Option, none, some, ok, arith, >>=-eq-ok,
}
use usrp_playground.Prelude.Int.{pos}
use usrp_playground.Json.{Json, number, int_or}
use usrp_playground.Mimo.Shape.{header_channels}
use usrp_playground.Gateway.Request.{
  Mode, siso, mimo, listen, Radio, Handshake, Frame, Plan, Submission, select_channel,
  announce_channels, request_samples, plan_for, read_handshake, receive, after_ack, second_frame,
  int_field, has_magic, settle_mode, measure, limit_samples, submission, check_payload, disconnect,
  text_frame, bytes_frame, other_frame, mode_of,
}

-- What the handshake announced: a MIMO upload has the magic and as many channels as its header says;
-- a listen request asks for the samples that are captured.
abbrev pub AnnouncedMode : Handshake → Submission → Option Mode → Type 0
AnnouncedMode h s (some mimo) =
    (has_magic s.blob ≡ true) × (int_or 1 h.channels ≡ number (pos (header_channels s.blob)))
AnnouncedMode h s (some listen) =
    (c : ℕ) × (s.listen_to ≡ some (s.n_samples, c))
    × (int_or 0 h.n_samples ≡ number (pos s.n_samples))
AnnouncedMode h s (some siso) = s.listen_to ≡ none
AnnouncedMode h s none = ⊥

abbrev pub IsAnnounced : Option Frame → Submission → Type 0
IsAnnounced (some (text_frame size (some h))) s = (size ≤ 4096) × AnnouncedMode h s (mode_of h.mode)
IsAnnounced _ s = s.listen_to ≡ none

announce_channels-number :
    (r : Radio) (v : Option Json) (c : ℕ)
    → announce_channels r v 0 ≡ ok c
    → int_or 1 v ≡ number (pos c)
unfolding announce_channels int_field
announce_channels-number r v c h = ground (arith, h)

request_samples-number :
    (r : Radio) (v : Option Json) (n : ℕ) → request_samples r v ≡ ok n → int_or 0 v ≡ number (pos n)
unfolding request_samples int_field
request_samples-number r v n h = ground (arith, h)

-- The same of the plan that comes out of the handshake.
abbrev pub AnnouncedPlan : Handshake → Plan → Mode → Type 0
AnnouncedPlan h p siso = Unit {0}
AnnouncedPlan h p mimo = int_or 1 h.channels ≡ number (pos p.announced_channels)
AnnouncedPlan h p listen = int_or 0 h.n_samples ≡ number (pos p.listen_samples)

abbrev pub PlanAnnounced : Option Frame → Plan → Type 0
PlanAnnounced (some (text_frame size (some h))) p =
    (size ≤ 4096) × ((mode_of h.mode ≡ some p.mode) × AnnouncedPlan h p p.mode)
PlanAnnounced _ p = p.mode ≡ siso

plan_for-AnnouncedPlan :
    (r : Radio) (h : Handshake) (c : ℕ) (m : Mode) (p : Plan)
    → plan_for r h c m ≡ ok p
    → (m ≡ p.mode) × AnnouncedPlan h p m
unfolding plan_for
plan_for-AnnouncedPlan r h c siso p e = ground arith
plan_for-AnnouncedPlan r h c mimo p e =
    ground (arith, announce_channels-number r h.channels p.announced_channels)
plan_for-AnnouncedPlan r h c listen p e =
    ground (arith, request_samples-number r h.n_samples p.listen_samples)

read_handshake-AnnouncedPlan :
    (r : Radio) (h : Handshake) (p : Plan)
    → read_handshake r h ≡ ok p
    → (mode_of h.mode ≡ some p.mode) × AnnouncedPlan h p p.mode
unfolding read_handshake
read_handshake-AnnouncedPlan r h p e = elim (Option-cases (mode_of h.mode)) [
  | inl q ↦ absurd (ground (arith, e, q))
  | inr (m, q) ↦
      let (c, picked, made) =
        >>=-eq-ok (select_channel r h.channel) (λ (c : ℕ). plan_for r h c m)
          (rw (q, read_handshake) at e) in
      let (same, good) = plan_for-AnnouncedPlan r h c m p made in rw (← same) (q, good)
]

pub receive-PlanAnnounced :
    (r : Radio) (first second : Option Frame) (p : Plan) (blob : List ℕ)
    → receive r first second ≡ ok (p, blob)
    → PlanAnnounced first p
unfolding receive after_ack second_frame
receive-PlanAnnounced r none second p blob e = cc
receive-PlanAnnounced r (some disconnect) second p blob e = cc
receive-PlanAnnounced r (some other_frame) second p blob e = cc
receive-PlanAnnounced r (some (bytes_frame b)) second p blob e = ground arith
receive-PlanAnnounced r (some (text_frame size none)) second p blob e = ground arith
receive-PlanAnnounced r (some (text_frame size (some h))) second p blob e =
    ground (arith, read_handshake-AnnouncedPlan r h p)

module _ (r : Radio) (p : Plan) (blob : List ℕ) (s : Submission) where
  check_payload_burst : p.mode ≡ siso → check_payload r p blob ≡ ok s → s.listen_to ≡ none
  unfolding check_payload settle_mode measure limit_samples submission
  check_payload_burst m e = ground arith

  check_payload_announced :
      (h : Handshake) (m : Mode)
      → p.mode ≡ m
      → AnnouncedPlan h p m
      → check_payload r p blob ≡ ok s
      → AnnouncedMode h s (some m)
  unfolding check_payload settle_mode measure limit_samples submission
  check_payload_announced h siso m a e = ground arith
  check_payload_announced h mimo m a e = ground arith
  check_payload_announced h listen m a e = (p.announced_channels, ground arith, ground arith)

pub check_payload-IsAnnounced :
    (r : Radio) (first : Option Frame) (p : Plan) (blob : List ℕ) (s : Submission)
    → PlanAnnounced first p
    → check_payload r p blob ≡ ok s
    → IsAnnounced first s
check_payload-IsAnnounced r none p blob s a e = check_payload_burst r p blob s a e
check_payload-IsAnnounced r (some disconnect) p blob s a e = check_payload_burst r p blob s a e
check_payload-IsAnnounced r (some other_frame) p blob s a e = check_payload_burst r p blob s a e
check_payload-IsAnnounced r (some (bytes_frame b)) p blob s a e = check_payload_burst r p blob s a e
check_payload-IsAnnounced r (some (text_frame size none)) p blob s a e =
    check_payload_burst r p blob s a e
check_payload-IsAnnounced r (some (text_frame size (some h))) p blob s (small, (mode, a)) e =
    (small, rw mode (check_payload_announced r p blob s h p.mode refl a e))
