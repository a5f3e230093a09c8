-- ===== src/Gateway/Slots.antt =====
-- entrypoint/main.py: the counters `ws_count` and `ws_per_ip`, which `ws_run` raises before its
-- first await and lowers in its `finally`.
pub mod Accounting
use usrp_playground.Prelude.{
  ℕ, ◌+◌, ◌-◌, List, [], ◌∷◌, ◌++◌, leb, if◌then◌else◌, Option, none, some, Result, ok, err, ◌≡◌,
}
use usrp_playground.Prelude.Text.{Text}
use usrp_playground.Prelude.Dict.{Dict, lookup, insert, remove}

pub record Limits : Type 0 where
  pub max_queue : ℕ
  pub max_queue_per_ip : ℕ

pub record Slots : Type 0 where
  pub ws_count : ℕ
  pub ws_per_ip : Dict ℕ

pub data Refusal : Type 0 where
  queue_full too_many_connections : Refusal

abbrev pub no_slots : Slots
no_slots = record { ws_count = 0; ws_per_ip = [] }

-- `ws_per_ip.get(ip, 0)`.
unfoldable pub held : Text → Slots → ℕ
held ip s = elim (lookup ip s.ws_per_ip) [ none ↦ 0 | some n ↦ n ]

-- The head of `ws_run`, up to its first await.
unfoldable pub reserve : Limits → Slots → Text → Result Refusal Slots
reserve l s ip =
    if leb l.max_queue s.ws_count
    then err queue_full
    else if leb l.max_queue_per_ip (held ip s)
    then err too_many_connections
    else ok
        (record { ws_count = s.ws_count + 1; ws_per_ip = insert ip (held ip s + 1) s.ws_per_ip })

-- The `finally` of `ws_run`.
unfoldable pub release : Slots → Text → Slots
release s ip = record {
  ws_count = s.ws_count - 1;
  ws_per_ip =
      if leb (held ip s - 1) 0
      then remove ip s.ws_per_ip
      else insert ip (held ip s - 1) s.ws_per_ip;
}

-- The counters beside the addresses whose `ws_run` is between the two.
pub record Gate : Type 0 where
  pub slots : Slots
  pub active : List Text

-- Coroutines run one after another between their awaits. Admins may change the limits at any time.
pub data Step (l : Limits) : Gate → Gate → Type 0 where
  admit :
      (g : Gate) (ip : Text) (s : Slots)
      → reserve l g.slots ip ≡ ok s
      → Step l g (record { slots = s; active = ip ∷ g.active })
  refuse : (g : Gate) (ip : Text) (r : Refusal) → reserve l g.slots ip ≡ err r → Step l g g
  finish :
      (g : Gate) (before after : List Text) (ip : Text)
      → g.active ≡ before ++ ip ∷ after
      → Step l g (record { slots = release g.slots ip; active = before ++ after })

-- Steps under limits that satisfy `P`, from the service's start.
pub data Reach (P : Limits → Type 0) : Gate → Type 0 where
  start : Reach P (record { slots = no_slots; active = [] })
  next : {g h : Gate} (l : Limits) → P l → Reach P g → Step l g h → Reach P h
