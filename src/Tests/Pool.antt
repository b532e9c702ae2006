-- ===== src/Tests/Pool.antt =====
-- Inputs for the theorems about devin_proxy/accounts.py.
use devin_proxy.Prelude.{
  ℕ, ◌+◌, ◌≤◌, Text, codes, true, false, ◌≡◌, ◌≢◌, refl, none, some, List, [], ◌∷◌, arith, nat_beq,
  text_beq, lookup, if◌then◌else◌, text_eq, nat_eq, min, ◌*◌,
}
use devin_proxy.Data.{upstream_error, plain_error}
use devin_proxy.Accounts.Account.{Row, Account, from_row}
use devin_proxy.Accounts.Failure.{Failure, dict, is_hard_failure}
use devin_proxy.Accounts.Pool.State.{Pool, reload}
use devin_proxy.Accounts.Pool.Schedule.{
  Request, avail, is_ready, pick, release, take_slot, cooldown_for, cooldown_base, cooldown_max,
}
use devin_proxy.Accounts.Pool.Choice.{Picked, pick-Picked, pick_none_lem}
use devin_proxy.Accounts.Pool.Slots.{
  Call, picks, releases, fails, flushes, run, IsWithinCaps, release-pick, run-IsWithinCaps,
}
use devin_proxy.Accounts.Pool.Cooldown.{mark_fail_hard, cooldown_for_lem, after}
use devin_proxy.Accounts.Pool.Reload.{release-reload-take_slot}

abbrev row : ℕ → Row
row i = record {
  id = i;
  name = some (codes "n");
  email = none;
  token = codes "t";
  api_server_url = none;
  devin_webapp_host = none;
  devin_api_url = none;
  source = none;
  plan = none;
  created = 0;
  disabled = 0;
  fail_count = none;
  consecutive_fails = none;
  cooldown_until = none;
  last_error = none;
  last_used = none;
  last_ok = none;
  req_count = none;
  max_concurrent = some 2;
  models = none;
  quota_json = none;
  quota_fetched = none;
  quota_limit_pct = none;
}

-- A pool before `reload`, and behind it.
abbrev bare : Pool
bare = record {
  objs = λ r. from_row (row 0);
  next_ref = 0;
  accs = [];
  pins = [];
  pins_dirty = [];
  db = record { rows = row 1 ∷ row 2 ∷ []; next_id = 3; sessions = []; tombs = [] };
}

abbrev account : ℕ → ℕ → Account
account i busy = record {
  id = i;
  name = some (codes "n");
  email = none;
  token = codes "t";
  api_server_url = codes "u";
  webapp = codes "w";
  api_url = codes "a";
  source = none;
  plan = none;
  created = 0;
  disabled = false;
  fail_count = 0;
  consecutive_fails = 0;
  cooldown_until = 0;
  last_error = none;
  last_used = none;
  last_ok = none;
  req_count = 0;
  max_concurrent = 2;
  models = [];
  in_flight = busy;
  quota_json = none;
  quota_fetched = 0;
  quota_limit_pct = 0;
}

-- Account 1 has a request in flight, account 2 has none; the session "s" is pinned to account 1.
abbrev pub loaded : Pool
loaded = record bare {
  objs = λ r. if nat_beq r 0 then account 1 1 else account 2 0;
  next_ref = 2;
  accs = (1, 0) ∷ (2, 1) ∷ [];
  pins = (codes "s", (1, 5)) ∷ [];
}

abbrev pub ask : Text → Request
ask key = record { session_key = key; exclude = []; force_id = none; models = []; remote = none }

reload_runs : (reload bare).accs ≡ (1, 0) ∷ (2, 1) ∷ []
unfolding reload
reload_runs = refl

pick_least_runs : (pick 10 loaded (ask [])).1 ≡ some 1
unfolding pick
pick_least_runs = refl

pick_pinned_runs : (pick 10 loaded (ask (codes "s"))).1 ≡ some 0
unfolding pick text_beq
pick_pinned_runs = refl

pick-Picked_example : Picked 10 loaded (ask []) (pick 10 loaded (ask [])).0 1
pick-Picked_example = pick-Picked 10 loaded (ask []) 1 refl pick_least_runs

pick_none_lem_example :
    let q : Request = record (ask []) { exclude = 1 ∷ 2 ∷ [] } in
    ((pick 10 loaded q).1 ≡ none → avail loaded q ≡ [])
    × (avail loaded q ≡ [] → pick 10 loaded q ≡ (loaded, none))
pick_none_lem_example = pick_none_lem 10 loaded (record (ask []) { exclude = 1 ∷ 2 ∷ [] }) refl

release-pick_example : (release (pick 10 loaded (ask [])).0 1).objs 1 ≡ loaded.objs 1
release-pick_example = release-pick 10 loaded (ask []) 1 pick_least_runs 1

abbrev refusal : Failure
refusal = dict (plain_error upstream_error (codes "quota"))

abbrev busy_error : Failure
busy_error = dict (record (plain_error upstream_error (codes "busy")) { transient = true })

abbrev same : Text → Text
same t = t

abbrev calls : List (ℕ × Call)
calls = (10, picks (ask [])) ∷ (11, fails 1 refusal) ∷ (12, releases 1) ∷ (13, flushes) ∷ []

loaded-IsWithinCaps : IsWithinCaps loaded
loaded-IsWithinCaps s = ground arith

run-IsWithinCaps_example : IsWithinCaps (run same loaded calls)
run-IsWithinCaps_example =
    run-IsWithinCaps same calls loaded (refl, (tt, (tt, (tt, tt)))) loaded-IsWithinCaps

cooldown_for_lem_example :
    (cooldown_for 1 ≡ cooldown_base) × (cooldown_for 6 ≡ min (2 * cooldown_for 5) cooldown_max)
cooldown_for_lem_example = cooldown_for_lem 4

mark_fail_hard_example :
    ((after same 10 loaded 1 refusal).consecutive_fails ≡ 1)
    × ((after same 10 loaded 1 refusal).cooldown_until
        ≡ 10 + cooldown_for (after same 10 loaded 1 refusal).consecutive_fails)
    × (10 + cooldown_base ≤ (after same 10 loaded 1 refusal).cooldown_until)
    × ((after same 10 loaded 1 refusal).cooldown_until ≤ 10 + cooldown_max)
    × (is_ready 10 (after same 10 loaded 1 refusal) ≡ false)
unfolding is_hard_failure
mark_fail_hard_example = mark_fail_hard same 10 loaded 1 refusal refl

release-reload-take_slot_example :
    (ref : ℕ) × (lookup 1 (release (reload (take_slot loaded 0)) 0).accs ≡ some ref)
    × (ref ≢ 0)
    × (((release (reload (take_slot loaded 0)) 0).objs ref).in_flight ≡ 2)
unfolding lookup
release-reload-take_slot_example = release-reload-take_slot loaded 1 0 refl (omega arith) refl
