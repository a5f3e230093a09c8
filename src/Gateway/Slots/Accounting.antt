-- ===== src/Gateway/Slots/Accounting.antt =====
-- entrypoint/main.py: the connection counters agree with the connections that are open.
use usrp_playground.Prelude.{
  ℕ, suc, ◌+◌, ◌-◌, ◌≤◌, ◌<◌, ◌≡◌, ◌≢◌, refl, List, [], ◌∷◌, ◌++◌, leb, if◌then◌else◌, some, ok,
  arith, length, length-append, ap, Bool-cases, inl, inr,
}
use usrp_playground.Prelude.Text.{Text, text_eq, text_eq_iff}
use usrp_playground.Prelude.Dict.{
  Dict, lookup, insert, IsDict, lookup-insert, lookup-remove, insert-IsDict, remove-IsDict,
}
use usrp_playground.Gateway.Slots.{
  Limits, Slots, Gate, Step, Reach, admit, refuse, finish, start, next, no_slots, held, reserve,
  release,
}

-- How many of the open connections come from `ip`.
pub count : Text → List Text → ℕ
count ip [] = 0
count ip (j ∷ js) = if text_eq j ip then suc (count ip js) else count ip js

count-append : (ip : Text) (xs ys : List Text) → count ip (xs ++ ys) ≡ count ip xs + count ip ys
unfolding count
count-append ip [] ys = omega arith
count-append ip (x ∷ xs) ys = ground (arith, count-append ip xs ys)

-- The counters are exact: in total, for each address, and no address is kept at zero.
pub record IsExact (g : Gate) : Type 0 where
  pub total : g.slots.ws_count ≡ length g.active
  pub each : (ip : Text) → held ip g.slots ≡ count ip g.active
  pub keys : IsDict g.slots.ws_per_ip
  pub positive : (ip : Text) → lookup ip g.slots.ws_per_ip ≢ some 0

module _ (l : Limits) (s t : Slots) (ip : Text) (e : reserve l s ip ≡ ok t) where
  reserve_counts :
      (t.ws_count ≡ s.ws_count + 1) × (t.ws_per_ip ≡ insert ip (held ip s + 1) s.ws_per_ip)
  unfolding reserve
  reserve_counts = ground arith

  reserve_room : (s.ws_count < l.max_queue) × (held ip s < l.max_queue_per_ip)
  unfolding reserve
  reserve_room = ground arith

  held-reserve : (j : Text) → held j t ≡ (if text_eq ip j then suc (held ip s) else held j s)
  unfolding held
  held-reserve j = ground (arith, reserve_counts, lookup-insert j ip (held ip s + 1) s.ws_per_ip)

held-release :
    (s : Slots) (ip j : Text)
    → IsDict s.ws_per_ip
    → held j (release s ip) ≡ (if text_eq ip j then held ip s - 1 else held j s)
unfolding release held
held-release s ip j d = ground (
  arith,
  lookup-insert j ip (held ip s - 1) s.ws_per_ip,
  lookup-remove j ip s.ws_per_ip d,
  text_eq_iff ip j,
)

admit-IsExact :
    (l : Limits) (g : Gate) (ip : Text) (s : Slots)
    → reserve l g.slots ip ≡ ok s
    → IsExact g
    → IsExact (record { slots = s; active = ip ∷ g.active })
unfolding count
admit-IsExact l g ip s e v =
    let (total, map) = reserve_counts l g.slots s ip e in
    record {
      total = omega (arith, v.total);
      each = λ j.
          ground (arith, held-reserve l g.slots s ip e j, v.each j, v.each ip, text_eq_iff ip j);
      keys = rw map (insert-IsDict ip _ _ v.keys);
      positive = λ j.
          ground
            (arith, map, v.positive j, lookup-insert j ip (held ip g.slots + 1) g.slots.ws_per_ip);
    }

module _ (s : Slots) (ip : Text) (d : IsDict s.ws_per_ip) where
  release-IsDict : IsDict (release s ip).ws_per_ip
  unfolding release
  release-IsDict = elim (Bool-cases (leb (held ip s - 1) 0)) [
    | inl e ↦ rw e (remove-IsDict ip s.ws_per_ip d)
    | inr e ↦ rw e (insert-IsDict ip (held ip s - 1) s.ws_per_ip d)
  ]

  release_positive :
      (j : Text) → lookup j s.ws_per_ip ≢ some 0 → lookup j (release s ip).ws_per_ip ≢ some 0
  unfolding release
  release_positive j h =
      ground
        (arith, lookup-insert j ip (held ip s - 1) s.ws_per_ip, lookup-remove j ip s.ws_per_ip d)

module _ (before after : List Text) (ip : Text) where
  length_removed : length (before ++ ip ∷ after) ≡ suc (length (before ++ after))
  length_removed = omega (arith, length-append before (ip ∷ after), length-append before after)

  count_removed :
      (j : Text)
      → count j (before ++ ip ∷ after)
        ≡ (if text_eq ip j then suc (count j (before ++ after)) else count j (before ++ after))
  unfolding count
  count_removed j = ground (arith, count-append j before (ip ∷ after), count-append j before after)

finish-IsExact :
    (g : Gate) (before after : List Text) (ip : Text)
    → g.active ≡ before ++ ip ∷ after
    → IsExact g
    → IsExact (record { slots = release g.slots ip; active = before ++ after })
unfolding release
finish-IsExact g before after ip e v = record {
  total = omega (arith, v.total, ap length e, length_removed before after ip);
  each = λ j. ground (
    arith,
    held-release g.slots ip j v.keys,
    v.each j,
    v.each ip,
    ap (count j) e,
    count_removed before after ip j,
    text_eq_iff ip j,
  );
  keys = release-IsDict g.slots ip v.keys;
  positive = λ j. release_positive g.slots ip v.keys j (v.positive j);
}

Step-IsExact : {l : Limits} {g h : Gate} → Step l g h → IsExact g → IsExact h
Step-IsExact {l} (admit g ip s e) v = admit-IsExact l g ip s e v
Step-IsExact (refuse g ip r e) v = v
Step-IsExact (finish g before after ip e) v = finish-IsExact g before after ip e v

-- Whatever the order in which connections come, are refused and end, and however the limits
-- change meanwhile, `ws_count` is the number of open connections, each entry of `ws_per_ip` the
-- number from that address, and no entry is left at zero.
pub Reach-IsExact : (P : Limits → Type 0) {g : Gate} → Reach P g → IsExact g
unfolding held lookup count
Reach-IsExact P start = record { total = refl; each = λ ip. refl; keys = tt; positive = λ ip h. cc }
Reach-IsExact P (next l p r s) = Step-IsExact s (Reach-IsExact P r)

count-le : (ip : Text) (xs : List Text) → count ip xs ≤ length xs
unfolding count
count-le ip [] = omega arith
count-le ip (x ∷ xs) = ground (arith, count-le ip xs)

pub record IsBounded (q p : ℕ) (g : Gate) : Type 0 where
  pub queue : length g.active ≤ q
  pub per_ip : (ip : Text) → count ip g.active ≤ p

abbrev pub AtMost : ℕ → ℕ → Limits → Type 0
AtMost q p l = (l.max_queue ≤ q) × (l.max_queue_per_ip ≤ p)

Step-IsBounded :
    (q p : ℕ) {l : Limits} {g h : Gate}
    → AtMost q p l
    → Step l g h
    → IsExact g
    → IsBounded q p g
    → IsBounded q p h
unfolding count
Step-IsBounded q p {l} a (admit g ip s e) v b =
    let room = reserve_room l g.slots s ip e in
    record {
      queue = omega (arith, v.total);
      per_ip = λ j. ground (arith, v.each ip, b.per_ip j, text_eq_iff ip j);
    }
Step-IsBounded q p a (refuse g ip r e) v b = b
Step-IsBounded q p a (finish g before after ip e) v b = record {
  queue = omega (arith, b.queue, ap length e, length_removed before after ip);
  per_ip = λ j. ground (arith, b.per_ip j, ap (count j) e, count_removed before after ip j);
}

-- Under limits that have always been at most `q` and `p`, never more than `q` connections are
-- open, and never more than `p` from one address.
pub Reach-IsBounded : (q p : ℕ) {g : Gate} → Reach (AtMost q p) g → IsBounded q p g
unfolding count
Reach-IsBounded q p start = record { queue = omega arith; per_ip = λ ip. omega arith }
Reach-IsBounded q p (next l a r s) =
    Step-IsBounded q p a s (Reach-IsExact (AtMost q p) r) (Reach-IsBounded q p r)

dict_empty :
    (d : Dict ℕ)
    → ((ip : Text) (n : ℕ) → lookup ip d ≡ some n → n ≡ 0)
    → ((ip : Text) → lookup ip d ≢ some 0)
    → d ≡ []
unfolding lookup
dict_empty [] zeros pos = refl
dict_empty ((k, n) ∷ d) zeros pos = ground (arith, zeros k n, pos k, text_eq_iff k k)

-- When the last connection ends, nothing is left behind: the counters are those of the start.
pub Reach-quiet : (P : Limits → Type 0) {g : Gate} → Reach P g → g.active ≡ [] → g.slots ≡ no_slots
unfolding held count
Reach-quiet P {g} r e =
    let v = Reach-IsExact P r in
    let empty =
      dict_empty g.slots.ws_per_ip (λ ip n h. ground (arith, v.each ip, ap (count ip) e))
        v.positive in
    ground (arith, v.total, ap length e, empty)
