-- ===== src/Admin/Login.antt =====
-- The login rate limiter of devin_proxy/admin_ctx.py. Times are in ticks, as in the pool.
use devin_proxy.Prelude.{
  ℕ, ◌+◌, ◌-◌, ◌/◌, Text, none, some, List, [], ◌∷◌, ◌++◌, Dict, lookup, insert, remove, keep,
  length, is_empty, ltb, leb, not, text_eq, if◌then◌else◌,
}
use devin_proxy.Accounts.Account.{second}

-- `_login_hits`: the times of the failed logins of an address, the oldest first.
abbrev pub Hits : Type 0
Hits = Dict Text (List ℕ)

abbrev pub hits_of : Hits → Text → List ℕ
hits_of h ip = elim (lookup ip h) [ none ↦ [] | some ts ↦ ts ]

-- `while hits and hits[0] <= now - win: hits.pop(0)`
unfoldable pub expire : ℕ → ℕ → List ℕ → List ℕ
expire now win [] = []
expire now win (t ∷ ts) = if leb (t + win) now then expire now win ts else t ∷ ts

-- The seconds to wait: 0 where the address may try.
unfoldable pub retry_after : ℕ → ℕ → ℕ → List ℕ → ℕ
retry_after max win now [] = 0
retry_after max win now (t ∷ ts) =
    if leb max (length (t ∷ ts)) then (t + win - now) / second + 1 else 0

-- The list is the one in the dict, so what expires is dropped there too.
unfoldable pub login_check : ℕ → ℕ → ℕ → Hits → Text → Hits × ℕ
unfolding expire retry_after
login_check max win now h ip =
    let hits = expire now win (hits_of h ip) in
    (elim (lookup ip h) [ none ↦ h | some ts ↦ insert ip hits h ], retry_after max win now hits)

unfoldable pub login_failed : ℕ → Hits → Text → Hits
login_failed now h ip =
    let h' = insert ip (hits_of h ip ++ now ∷ []) h in
    if ltb 10000 (length h') then keep (λ (e : Text × List ℕ). not (is_empty e.1)) h' else h'

unfoldable pub login_ok : Hits → Text → Hits
login_ok = λ h ip. remove ip h
