-- ===== src/Accounts/Pool/State.antt =====
-- The state of the pool, and the methods that load, look up, add and remove accounts.
use devin_proxy.Prelude.{
  ℕ, suc, Text, codes, Bool, false, not, ◌&&◌, Option, none, some, ◌⊎◌, inl, inr, List, [], ◌∷◌,
  ◌++◌, any, keep, is_empty, nat_beq, nat_eq, text_beq, text_eq, Dict, lookup, insert, remove,
  if◌then◌else◌,
}
use devin_proxy.Accounts.Account.{
  Row, Account, from_row, persisted, normalize_token, default_api_server,
}

-- The tables `accounts` (by id), `sessions` and the tombstones of `meta`.
pub record Db : Type 0 where
  pub rows : List Row
  pub next_id : ℕ
  pub sessions : Dict Text (ℕ × ℕ)
  pub tombs : Dict Text Text

-- `objs` is the heap; `accs` maps an account's id to its object; a pin holds an account's id and
-- when it was last used.
pub record Pool : Type 0 where
  pub objs : ℕ → Account
  pub next_ref : ℕ
  pub accs : Dict ℕ ℕ
  pub pins : Dict Text (ℕ × ℕ)
  pub pins_dirty : List Text
  pub db : Db

-- An object with some attributes assigned.
abbrev pub assign : Pool → ℕ → Account → Pool
assign p r a = record p { objs = λ s. if nat_beq r s then a else p.objs s }

-- `UPDATE accounts SET … WHERE id=?`
unfoldable pub update_rows : ℕ → (Row → Row) → List Row → List Row
update_rows aid f [] = []
update_rows aid f (r ∷ rs) = (if nat_beq r.id aid then f r else r) ∷ update_rows aid f rs

-- `acct.persist()`
unfoldable pub persist : Pool → ℕ → Pool
unfolding persisted update_rows
persist p r =
    let a = p.objs r in
    record p { db = record p.db { rows = update_rows a.id (persisted a) p.db.rows } }

-- One turn of the loop of `reload`: a new object for the row, with the old one's `in_flight`.
unfoldable pub load_row : Dict ℕ ℕ → Pool → Row → Pool
unfolding from_row lookup insert
load_row prev p row =
    let fresh = from_row row in
    let a : Account = elim (lookup row.id prev) [
      | none ↦ fresh
      | some r ↦ record fresh { in_flight = (p.objs r).in_flight }
    ] in
    record p {
      objs = λ s. if nat_beq p.next_ref s then a else p.objs s;
      next_ref = suc p.next_ref;
      accs = insert row.id p.next_ref p.accs;
    }

unfoldable pub load_rows : Dict ℕ ℕ → List Row → Pool → Pool
unfolding load_row
load_rows prev [] p = p
load_rows prev (row ∷ rows) p = load_rows prev rows (load_row prev p row)

-- `reload`
unfoldable pub reload : Pool → Pool
unfolding load_rows
reload p = load_rows p.accs p.db.rows (record p { accs = [] })

-- `get`
unfoldable pub get : Pool → ℕ → Option ℕ
unfolding lookup
get p aid = lookup aid p.accs

-- `update(aid, **fields)`: the fields are what they do to the row.
unfoldable pub update : ℕ → (Row → Row) → Pool → Pool
unfolding update_rows reload
update aid f p = reload (record p { db = record p.db { rows = update_rows aid f p.db.rows } })

-- `store.delete_account` and the two dicts
unfoldable pub drop_account : ℕ → Pool → Pool
unfolding remove lookup
drop_account aid p =
    let gone = λ (e : Text × (ℕ × ℕ)). nat_beq e.1.0 aid in
    record p {
      accs = remove aid p.accs;
      pins = keep (λ e. not (gone e)) p.pins;
      pins_dirty = keep (λ k. not (any (λ e. gone e && text_beq e.0 k) p.pins)) p.pins_dirty;
      db = record p.db {
        rows = keep (λ r. not (nat_beq r.id aid)) p.db.rows;
        sessions = keep (λ e. not (gone e)) p.db.sessions;
      };
    }

-- What the caller of `add` may give beside the token.
pub record NewAccount : Type 0 where
  pub token : Text
  pub name : Option Text
  pub email : Option Text
  pub api_server_url : Option Text
  pub webapp : Option Text
  pub api_url : Option Text
  pub source : Option Text
  pub plan : Option Text
  pub manual : Bool

pub data AddError : Type 0 where
  empty_token previously_removed duplicate_token : AddError

-- The row that `store.add_account` inserts; its other columns have their defaults.
unfoldable pub new_row : ℕ → ℕ → Text → NewAccount → Row
new_row now aid token n = record {
  id = aid;
  name = n.name;
  email = n.email;
  token = token;
  api_server_url = some (or_default n.api_server_url);
  devin_webapp_host = n.webapp;
  devin_api_url = n.api_url;
  source = n.source;
  plan = n.plan;
  created = now;
  disabled = 0;
  fail_count = some 0;
  consecutive_fails = some 0;
  cooldown_until = some 0;
  last_error = none;
  last_used = none;
  last_ok = none;
  req_count = some 0;
  max_concurrent = some 0;
  models = none;
  quota_json = none;
  quota_fetched = none;
  quota_limit_pct = some 0;
}
  where
    or_default : Option Text → Text
    or_default none = default_api_server
    or_default (some []) = default_api_server
    or_default (some (c ∷ s)) = c ∷ s

-- The hash of a token is a parameter: `hashlib.sha256(token.encode()).hexdigest()`.
module _ (sha256 : Text → Text) where
  abbrev pub tomb : Text → Text
  tomb token = codes "tomb:" ++ sha256 token

  unfoldable pub tombstoned : Dict Text Text → Text → Bool
  unfolding lookup
  tombstoned tombs token = elim (lookup (tomb token) tombs) [
    | none ↦ false
    | some v ↦ text_beq v (codes "1")
  ]

  unfoldable pub insert_row : ℕ → Text → NewAccount → Pool → Pool × (AddError ⊎ Option ℕ)
  unfolding new_row reload get
  insert_row now token n p =
      let aid = p.db.next_id in
      let db = record p.db {
        rows = p.db.rows ++ new_row now aid token n ∷ [];
        next_id = suc aid;
      } in
      let q = reload (record p { db = db }) in (q, inr (get q aid))

  -- `add`
  unfoldable pub add : ℕ → NewAccount → Pool → Pool × (AddError ⊎ Option ℕ)
  unfolding tombstoned insert_row normalize_token insert
  add now n p =
      let token = normalize_token n.token in
      let forgiven = record p {
        db = record p.db {
          tombs = if n.manual then insert (tomb token) (codes "0") p.db.tombs else p.db.tombs;
        };
      } in
      if is_empty token
      then (p, inl empty_token)
      else if not n.manual && tombstoned p.db.tombs token
      then (p, inl previously_removed)
      else if any (λ r. text_beq (normalize_token r.token) token) p.db.rows
      then (forgiven, inl duplicate_token)
      else insert_row now token n forgiven

  -- `remove`
  unfoldable pub remove_account : ℕ → Pool → Pool
  unfolding drop_account lookup insert
  remove_account aid p = elim (lookup aid p.accs) [
    | none ↦ drop_account aid p
    | some r ↦ drop_account aid (record p {
      db = record p.db { tombs = insert (tomb (p.objs r).token) (codes "1") p.db.tombs };
    })
  ]
