-- ===== src/Accounts/Pool/Reload.antt =====
-- `reload` replaces the `Account` objects; what a request still holds is then a stale object.
use devin_proxy.Prelude.{
  ℕ, suc, ◌≤◌, ◌<◌, true, ◌≡◌, ◌≢◌, refl, sym, subst, ◌⊎◌, some, List, [], ◌∷◌, any, nat_beq,
  nat_eq, Dict, lookup, lookup-insert, arith, Bool-cases, inl, inr,
}
use devin_proxy.Accounts.Account.{Row}
use devin_proxy.Accounts.Pool.State.{Pool, load_row, load_rows, reload}
use devin_proxy.Accounts.Pool.Schedule.{release, take_slot}

-- `aid` stands for an object that is no older than `base` and has `n` requests in flight.
record IsLive (aid base n : ℕ) (p : Pool) : Type 0 where
  ref : ℕ
  found : lookup aid p.accs ≡ some ref
  young : base ≤ ref
  old : ref < p.next_ref
  flight : (p.objs ref).in_flight ≡ n

module _ (prev : Dict ℕ ℕ) (aid r base n : ℕ) (held : lookup aid prev ≡ some r) where
  load_row-new :
      (row : Row) (p : Pool)
      → r < base
      → base ≤ p.next_ref
      → (p.objs r).in_flight ≡ n
      → row.id ≡ aid
      → IsLive aid base n (load_row prev p row)
  unfolding load_row
  load_row-new row p h k f e = record {
    ref = p.next_ref;
    found = ground (arith, lookup-insert row.id aid p.next_ref p.accs);
    young = k;
    old = omega arith;
    flight =
        let held' : lookup row.id prev ≡ some r =
          subst (λ i. lookup i prev ≡ some r) (sym e) held in
        rw held' (ground arith);
  }

  load_row-IsLive :
      (row : Row) (p : Pool)
      → r < base
      → base ≤ p.next_ref
      → (p.objs r).in_flight ≡ n
      → IsLive aid base n p
      → IsLive aid base n (load_row prev p row)
  load_row-IsLive row p h k f live = elim (Bool-cases (nat_beq row.id aid)) [
    | inl e ↦ load_row-new row p h k f (ground arith)
    | inr e ↦
        unfold load_row in
        record {
          ref = live.ref;
          found = ground (arith, lookup-insert row.id aid p.next_ref p.accs, live.found);
          young = live.young;
          old = omega (arith, live.old);
          flight = ground (arith, live.old, live.flight);
        }
  ]

  -- The object that is held keeps its count while the rows are loaded.
  load_row-held :
      (row : Row) (p : Pool) → r < p.next_ref → ((load_row prev p row).objs r) ≡ p.objs r
  unfolding load_row
  load_row-held row p h = ground arith

  next_ref-load_row : (row : Row) (p : Pool) → (load_row prev p row).next_ref ≡ suc p.next_ref
  unfolding load_row
  next_ref-load_row row p = refl

  load_rows-IsLive :
      (rows : List Row) (p : Pool)
      → r < base
      → base ≤ p.next_ref
      → (p.objs r).in_flight ≡ n
      → IsLive aid base n p ⊎ (any (λ row. nat_beq row.id aid) rows ≡ true)
      → IsLive aid base n (load_rows prev rows p)
  unfolding load_rows
  load_rows-IsLive [] p h k f (inl live) = live
  load_rows-IsLive [] p h k f (inr bad) = absurd (ground arith)
  load_rows-IsLive (row ∷ rows) p h k f l =
      load_rows-IsLive rows (load_row prev p row) h (omega (arith, next_ref-load_row row p))
        (rw (load_row-held row p (omega arith)) f) (step l)
    where
      step :
          IsLive aid base n p ⊎ (any (λ w. nat_beq w.id aid) (row ∷ rows) ≡ true)
          → IsLive aid base n (load_row prev p row) ⊎ (any (λ w. nat_beq w.id aid) rows ≡ true)
      step (inl live) = inl (load_row-IsLive row p h k f live)
      step (inr some_row) = elim (Bool-cases (nat_beq row.id aid)) [
        | inl e ↦ inl (load_row-new row p h k f (ground arith))
        | inr e ↦ inr (ground arith)
      ]

-- A request takes a slot of the account `aid`, whose object is `r`; the accounts are reloaded, as by
-- every change in the console; the request gives its slot back. Then the object that stands for the
-- account has one request in flight more than before, and is not the object that was released.
pub release-reload-take_slot :
    (p : Pool) (aid r : ℕ)
    → lookup aid p.accs ≡ some r
    → r < p.next_ref
    → any (λ row. nat_beq row.id aid) p.db.rows ≡ true
    → (ref : ℕ) × (lookup aid (release (reload (take_slot p r)) r).accs ≡ some ref)
      × (ref ≢ r)
      × (((release (reload (take_slot p r)) r).objs ref).in_flight ≡ suc (p.objs r).in_flight)
unfolding release reload
release-reload-take_slot p aid r held fresh present =
    (live.ref, live.found, λ e. omega (arith, live.young), kept)
  where
    live : IsLive aid p.next_ref (suc (p.objs r).in_flight) (reload (take_slot p r))
    live =
        unfold reload take_slot in
        load_rows-IsLive p.accs aid r p.next_ref (suc (p.objs r).in_flight) held p.db.rows _ fresh
          (omega arith) (ground arith) (inr present)

    kept : ((release (reload (take_slot p r)) r).objs live.ref).in_flight ≡ suc (p.objs r).in_flight
    kept = unfold release in ground (arith, live.young, live.flight)
