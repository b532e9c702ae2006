-- ===== src/Accounts/Pool/Schedule.antt =====
-- Scheduling, outcomes and pins: `pick`, `release`, `mark_ok`, `mark_fail`, `pin`, `unpin` and
-- `_flush_pins`. A session key that is `None` or "" is the empty text.
use devin_proxy.Prelude.{
  ℕ, suc, ◌+◌, ◌*◌, ◌-◌, ◌^◌, min, Text, codes, Bool, true, not, ◌&&◌, ◌||◌, Option, none, some,
  List, [], ◌∷◌, map, elem, keep, take, is_empty, ltb, leb, nat_beq, nat_eq, text_eq, Dict, lookup,
  insert, remove, discard, set_add, or_else, if◌then◌else◌,
}
use devin_proxy.Accounts.Account.{Account, serves, at_cap, second, or_zero}
use devin_proxy.Accounts.Failure.{Failure, dict, other, is_hard_failure}
use devin_proxy.Accounts.Pool.State.{Pool, assign, persist}

abbrev pub cooldown_base : ℕ
cooldown_base = 30 * second

abbrev pub cooldown_max : ℕ
cooldown_max = 900 * second

abbrev pub session_ttl : ℕ
session_ttl = 86400 * second

-- The arguments of `pick`. `remote` is the pair of the ids that advertise the model and of all ids
-- that advertise anything.
pub record Request : Type 0 where
  pub session_key : Text
  pub exclude : List ℕ
  pub force_id : Option ℕ
  pub models : List Text
  pub remote : Option (List ℕ × List ℕ)

abbrev pub remote_allows : Option (List ℕ × List ℕ) → ℕ → Bool
remote_allows none id = true
remote_allows (some (allowed, known)) id = elem id allowed || not (elem id known)

-- The condition of the comprehension `avail`.
unfoldable pub is_available : Request → Account → Bool
unfolding serves at_cap
is_available q a =
    not a.disabled
    && not (elem a.id q.exclude)
    && not (at_cap a)
    && serves a q.models
    && remote_allows q.remote a.id

unfoldable pub avail : Pool → Request → List ℕ
unfolding is_available
avail p q = keep (λ r. is_available q (p.objs r)) (map (λ e. e.1) p.accs)

abbrev pub is_ready : ℕ → Account → Bool
is_ready now a = leb a.cooldown_until now

-- `(in_flight, consecutive_fails, last_used or 0)`, in the order of tuples
unfoldable pub load_le : Account → Account → Bool
load_le a b =
    ltb a.in_flight b.in_flight
    || (nat_beq a.in_flight b.in_flight
        && (ltb a.consecutive_fails b.consecutive_fails
            || (nat_beq a.consecutive_fails b.consecutive_fails
                && leb (or_zero a.last_used) (or_zero b.last_used))))

unfoldable pub insert_by_load : Pool → ℕ → List ℕ → List ℕ
unfolding load_le
insert_by_load p r [] = r ∷ []
insert_by_load p r (s ∷ ss) =
    if load_le (p.objs r) (p.objs s) then r ∷ s ∷ ss else s ∷ insert_by_load p r ss

-- `cands.sort(key=…)`, which is stable
unfoldable pub sort_by_load : Pool → List ℕ → List ℕ
unfolding insert_by_load
sort_by_load p [] = []
sort_by_load p (r ∷ rs) = insert_by_load p r (sort_by_load p rs)

-- `a.in_flight += 1`
unfoldable pub take_slot : Pool → ℕ → Pool
take_slot p r = let a = p.objs r in assign p r (record a { in_flight = suc a.in_flight })

unfoldable pub pick_forced : ℕ → Pool → Pool × Option ℕ
unfolding take_slot lookup
pick_forced id p = elim (lookup id p.accs) [
  | none ↦ (p, none)
  | some r ↦ if (p.objs r).disabled then (p, none) else (take_slot p r, some r)
]

-- The object of the session's pin, if it is available and ready.
unfoldable pub pinned : ℕ → Pool → Request → Option ℕ
unfolding avail lookup
pinned now p q = if is_empty q.session_key then none else elim (lookup q.session_key p.pins) [
  | none ↦ none
  | some (aid, updated) ↦ elim (lookup aid p.accs) [
    | none ↦ none
    | some r ↦ if elem r (avail p q) && is_ready now (p.objs r) then some r else none
  ]
]

-- `ready or avail`
abbrev pub ready_or_all : List ℕ → List ℕ → List ℕ
ready_or_all [] all = all
ready_or_all (r ∷ rs) all = r ∷ rs

unfoldable pub candidates : ℕ → Pool → Request → List ℕ
unfolding avail
candidates now p q = ready_or_all (keep (λ r. is_ready now (p.objs r)) (avail p q)) (avail p q)

unfoldable pub first_of_sorted : Pool → List ℕ → Pool × Option ℕ
unfolding take_slot
first_of_sorted p [] = (p, none)
first_of_sorted p (r ∷ rs) = (take_slot p r, some r)

unfoldable pub touch_pin : ℕ → Pool → Text → Pool
unfolding lookup insert
touch_pin now p key = elim (lookup key p.pins) [
  | none ↦ p
  | some (aid, updated) ↦ record p {
    pins = insert key (aid, now) p.pins;
    pins_dirty = set_add key p.pins_dirty;
  }
]

unfoldable pub pick_free : ℕ → Pool → Request → Pool × Option ℕ
unfolding pinned candidates sort_by_load first_of_sorted touch_pin take_slot
pick_free now p q = elim (pinned now p q) [
  | some r ↦ (touch_pin now (take_slot p r) q.session_key, some r)
  | none ↦ first_of_sorted p (sort_by_load p (candidates now p q))
]

unfoldable pub pick_by : ℕ → Pool → Request → Option ℕ → Pool × Option ℕ
unfolding pick_forced pick_free
pick_by now p q (some id) = pick_forced id p
pick_by now p q none = pick_free now p q

-- `_pick`
unfoldable pub pick : ℕ → Pool → Request → Pool × Option ℕ
unfolding pick_by
pick now p q = pick_by now p q q.force_id

-- `release`
unfoldable pub release : Pool → ℕ → Pool
release p r = let a = p.objs r in assign p r (record a { in_flight = a.in_flight - 1 })

-- `mark_ok`
unfoldable pub mark_ok : ℕ → Pool → ℕ → Pool
unfolding persist
mark_ok now p r =
    let a = p.objs r in
    persist
      (assign p r (record a {
        req_count = suc a.req_count;
        last_used = some now;
        last_ok = some now;
        consecutive_fails = 0;
        cooldown_until = 0;
        last_error = none;
      }))
      r

abbrev pub failure_text : Failure → Text
failure_text (dict e) = or_else (some e.message) (codes "unknown error")
failure_text (other e) = or_else (some e) (codes "unknown error")

-- `min(COOLDOWN_BASE * 2 ** (fails - 1), COOLDOWN_MAX)`
unfoldable pub cooldown_for : ℕ → ℕ
cooldown_for fails = min (cooldown_base * 2 ^ (fails - 1)) cooldown_max

module _ (lower : Text → Text) where
  -- What `mark_fail` does to the object.
  unfoldable pub failed_account : ℕ → Failure → Account → Account
  unfolding cooldown_for is_hard_failure
  failed_account now err a =
      let hit = record a {
        fail_count = suc a.fail_count;
        last_used = some now;
        last_error = some (take 300 (failure_text err));
      } in
      if is_hard_failure lower err
      then record hit {
        consecutive_fails = suc a.consecutive_fails;
        cooldown_until = now + cooldown_for (suc a.consecutive_fails);
      }
      else hit

  -- `mark_fail`
  unfoldable pub mark_fail : ℕ → Pool → ℕ → Failure → Pool
  unfolding persist failed_account
  mark_fail now p r err = persist (assign p r (failed_account now err (p.objs r))) r

-- `pin`, behind its test of the session key
unfoldable pub set_pin : ℕ → Pool → Text → ℕ → Pool
unfolding lookup insert
set_pin now p key aid =
    let fresh = record p {
      pins = insert key (aid, now) p.pins;
      pins_dirty = discard key p.pins_dirty;
      db = record p.db { sessions = insert key (aid, now) p.db.sessions };
    } in
    elim (lookup key p.pins) [
      | none ↦ fresh
      | some (old, updated) ↦
          if nat_beq old aid
          then record p {
            pins = insert key (aid, now) p.pins;
            pins_dirty = set_add key p.pins_dirty;
          }
          else fresh
    ]

-- `pin`
unfoldable pub pin : ℕ → Pool → Text → ℕ → Pool
unfolding set_pin
pin now p key r = if is_empty key then p else set_pin now p key (p.objs r).id

-- `unpin`
unfoldable pub unpin : Pool → Text → Pool
unfolding remove
unpin p key = record p {
  pins = remove key p.pins;
  pins_dirty = discard key p.pins_dirty;
  db = record p.db { sessions = remove key p.db.sessions };
}

-- `now - updated > SESSION_TTL`
abbrev pub is_stale : ℕ → Text × (ℕ × ℕ) → Bool
is_stale now e = ltb (e.1.1 + session_ttl) now

-- `store.touch_pins`, which updates existing rows only
unfoldable pub touch_pins : Dict Text (ℕ × ℕ) → List Text → Dict Text (ℕ × ℕ) → Dict Text (ℕ × ℕ)
unfolding lookup
touch_pins pins dirty [] = []
touch_pins pins dirty ((k, (aid, updated)) ∷ rows) =
    let rest = touch_pins pins dirty rows in
    (k, (aid, touched (if elem k dirty then lookup k pins else none))) ∷ rest
  where
    touched : Option (ℕ × ℕ) → ℕ
    touched none = updated
    touched (some (a, ts)) = ts

-- `_flush_pins`: `DELETE … WHERE updated < now - ttl` is the same test as `is_stale`
unfoldable pub flush_pins : ℕ → Pool → Pool
unfolding touch_pins
flush_pins now p =
    let live = keep (λ e. not (is_stale now e)) p.pins in
    record p {
      pins = live;
      pins_dirty = [];
      db = record p.db {
        sessions = keep (λ e. not (is_stale now e)) (touch_pins live p.pins_dirty p.db.sessions);
      };
    }
