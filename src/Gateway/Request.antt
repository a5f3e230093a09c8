-- ===== src/Gateway/Request.antt =====
-- entrypoint/main.py: `ws_run` from the first frame to the task: the handshake, the upload and
-- the checks that stand before the queue.
pub mod Announced
pub mod Checks
use usrp_playground.Prelude.{
  ℕ, ◌+◌, ◌-◌, ◌*◌, ◌/◌, Bool, true, false, not, ◌&&◌, ◌||◌, List, [], ◌∷◌, Option, none, some, leb,
  ltb, ◌==◌, if◌then◌else◌, length, take, drop, Result, ok, err, ◌>>=◌, ◌>>◌, raise_if,
}
use usrp_playground.Prelude.Int.{ℤ, pos, is_below, is_above, to_nat}
use usrp_playground.Prelude.Text.{Text, codes, text_eq, lower}
use usrp_playground.Json.{Json, Conversion, number, invalid, overflow, int_or}
use usrp_playground.Mimo.{magic, unpack_u32}

pub data Mode : Type 0 where
  siso mimo listen : Mode

-- The `error` of the last message, or how the connection ends without one.
pub data Reject : Type 0 where
  bad_handshake mimo_disabled upload_timeout bad_frame file_too_large bad_payload : Reject
  too_many_samples disconnected crashed : Reject

-- What `ws_run` reads of the settings and the inventory. 0 `max_samples` means no limit.
pub record Radio : Type 0 where
  pub mimo_enabled : Bool
  pub mimo_max_channels : ℕ
  pub n_inv_channels : ℕ
  pub max_samples : ℕ
  pub max_upload : ℕ

-- The fields of the handshake object that are looked up.
pub record Handshake : Type 0 where
  pub mode : Option Json
  pub channel : Option Json
  pub channels : Option Json
  pub n_samples : Option Json

-- What `ws.receive()` returns. A text comes with its length, and with the object in it if it is
-- one.
pub data Frame : Type 0 where
  disconnect : Frame
  text_frame : ℕ → Option Handshake → Frame
  bytes_frame : List ℕ → Frame
  other_frame : Frame

-- What has been settled before the payload is looked at.
pub record Plan : Type 0 where
  pub mode : Mode
  pub announced_channels : ℕ
  pub selected_channel : ℕ
  pub listen_samples : ℕ

abbrev pub legacy_plan : Plan
legacy_plan = record {
  mode = siso;
  announced_channels = 1;
  selected_channel = 0;
  listen_samples = 0;
}

unfoldable pub mode_of_text : Text → Option Mode
mode_of_text t =
    if text_eq t (codes "siso")
    then some siso
    else if text_eq t (codes "mimo")
    then some mimo
    else if text_eq t (codes "listen")
    then some listen
    else none

-- `str(handshake.get("mode", "siso")).lower()`, among the three known words.
unfoldable pub mode_of : Option Json → Option Mode
unfolding mode_of_text lower text_eq
mode_of none = some siso
mode_of (some (Json.text t)) = mode_of_text (lower t)
mode_of (some _) = none

-- `try: int(...) except (TypeError, ValueError): fallback`. An `OverflowError` ends `ws_run`.
unfoldable pub int_field : ℕ → Option Json → ℕ → Result Reject ℤ
unfolding int_or
int_field default v fallback = elim (int_or default v) [
  | number z ↦ ok z
  | invalid ↦ ok (pos fallback)
  | overflow ↦ err crashed
]

unfoldable pub select_channel : Radio → Option Json → Result Reject ℕ
unfolding int_field
select_channel r v = do
  z ← int_field 0 v 0
  raise_if (is_below z 0 || (not (r.n_inv_channels == 0) && not (is_below z r.n_inv_channels)))
      bad_handshake
  ok (to_nat z)

-- `channels` of a MIMO upload and of a listen request: 1 .. mimo_max_channels.
unfoldable pub announce_channels : Radio → Option Json → ℕ → Result Reject ℕ
unfolding int_field
announce_channels r v fallback = do
  z ← int_field 1 v fallback
  raise_if (is_below z 1 || is_above z r.mimo_max_channels) bad_handshake
  ok (to_nat z)

unfoldable pub request_samples : Radio → Option Json → Result Reject ℕ
unfolding int_field
request_samples r v = do
  z ← int_field 0 v 0
  raise_if (is_below z 1 || (not (r.max_samples == 0) && is_above z r.max_samples)) bad_handshake
  ok (to_nat z)

unfoldable pub plan_for : Radio → Handshake → ℕ → Mode → Result Reject Plan
plan_for r h channel siso = ok (record legacy_plan { selected_channel = channel })
plan_for r h channel mimo = do
  raise_if (not r.mimo_enabled) mimo_disabled
  channels ← announce_channels r h.channels 0
  ok (record {
    mode = mimo;
    announced_channels = channels;
    selected_channel = channel;
    listen_samples = 0;
  })
plan_for r h channel listen = do
  samples ← request_samples r h.n_samples
  channels ← announce_channels r h.channels 1
  raise_if (ltb 1 channels && not r.mimo_enabled) mimo_disabled
  ok (record {
    mode = listen;
    announced_channels = channels;
    selected_channel = if ltb 1 channels then 0 else channel;
    listen_samples = samples;
  })

unfoldable pub read_handshake : Radio → Handshake → Result Reject Plan
read_handshake r h = elim (mode_of h.mode) [
  | none ↦ err bad_handshake
  | some mode ↦ do channel ← select_channel r h.channel; plan_for r h channel mode
]

-- The second `receive_bytes`: `none` is a timeout. Any frame but a binary one raises.
unfoldable pub second_frame : Option Frame → Result Reject (List ℕ)
second_frame none = err upload_timeout
second_frame (some disconnect) = err disconnected
second_frame (some (bytes_frame b)) = ok b
second_frame (some _) = err crashed

unfoldable pub after_ack : Plan → Mode → Option Frame → Result Reject (Plan × List ℕ)
unfolding second_frame
after_ack p listen second = ok (p, [])
after_ack p _ second = do blob ← second_frame second; ok (p, blob)

-- The two frames, of which the second is only awaited after a handshake that is no listen.
unfoldable pub receive : Radio → Option Frame → Option Frame → Result Reject (Plan × List ℕ)
receive r none second = err upload_timeout
receive r (some disconnect) second = err disconnected
receive r (some (text_frame size handshake)) second = do
  raise_if (ltb 4096 size) bad_handshake
  elim handshake [
    | none ↦ err bad_handshake
    | some h ↦ do p ← read_handshake r h; after_ack p p.mode second
  ]
receive r (some (bytes_frame b)) second = ok (legacy_plan, b)
receive r (some other_frame) second = err bad_frame

abbrev pub has_magic : List ℕ → Bool
has_magic blob = leb 8 (length blob) && text_eq (take 8 blob) magic

-- The mode against the first bytes: a MIMO blob without handshake is MIMO where that is enabled.
unfoldable pub settle_mode : Radio → Mode → Bool → Result Reject Mode
settle_mode r siso true = if not r.mimo_enabled then err mimo_disabled else ok mimo
settle_mode r siso false = ok siso
settle_mode r mimo true = ok mimo
settle_mode r mimo false = err bad_payload
settle_mode r listen _ = ok listen

abbrev pub is_mimo : Mode → Bool
is_mimo mimo = true
is_mimo _ = false

-- Channels and samples per channel of the payload.
unfoldable pub measure : Radio → Plan → Mode → List ℕ → Result Reject (ℕ × ℕ)
measure r p mimo blob = do
  raise_if (ltb (length blob) 16) bad_payload
  let hdr_ch = unpack_u32 (take 4 (drop 8 blob))
  let hdr_n = unpack_u32 (drop 4 (take 8 (drop 8 blob)))
  raise_if (ltb hdr_ch 1 || ltb r.mimo_max_channels hdr_ch) bad_payload
  raise_if (is_mimo p.mode && not (hdr_ch == p.announced_channels)) bad_payload
  raise_if (ltb (length blob - 16) (hdr_ch * hdr_n * 8)) bad_payload
  ok (hdr_ch, hdr_n)
measure r p siso blob = ok (p.announced_channels, length blob / 8)
measure r p listen blob = ok (p.announced_channels, p.listen_samples)

unfoldable pub limit_samples : Radio → Mode → ℕ → Result Reject (Unit {0})
limit_samples r listen n = ok tt
limit_samples r _ n = do
  raise_if (leb n 0) bad_payload
  raise_if (not (r.max_samples == 0) && ltb r.max_samples n) too_many_samples

-- What is written for the worker: input.f32 and meta.json, and the task's `n_samples`.
pub record Submission : Type 0 where
  pub blob : List ℕ
  pub channel : ℕ
  pub listen_to : Option (ℕ × ℕ)
  pub n_samples : ℕ

unfoldable pub submission : Plan → Mode → List ℕ → ℕ × ℕ → Submission
submission p siso blob (c, n) = record {
  blob = blob;
  channel = p.selected_channel;
  listen_to = none;
  n_samples = n;
}
submission p mimo blob (c, n) = record { blob = blob; channel = 0; listen_to = none; n_samples = n }
submission p listen blob (c, n) = record {
  blob = blob;
  channel = p.selected_channel;
  listen_to = some (p.listen_samples, c);
  n_samples = n;
}

unfoldable pub check_payload : Radio → Plan → List ℕ → Result Reject Submission
check_payload r p blob = do
  raise_if (ltb r.max_upload (length blob)) file_too_large
  mode ← settle_mode r p.mode (has_magic blob)
  size ← measure r p mode blob
  limit_samples r mode size.1
  ok (submission p mode blob size)

-- Everything between the `info` message and the task.
unfoldable pub accept : Radio → Option Frame → Option Frame → Result Reject Submission
accept r first second = do (p, blob) ← receive r first second; check_payload r p blob
