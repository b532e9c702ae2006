-- ===== src/App/ToolAgg.antt =====
-- The class `ToolAgg` of devin_proxy/app.py: streamed tool-call deltas become whole calls.
pub mod Deltas
use devin_proxy.Prelude.{
  ℕ, zero, suc, Text, Bool, true, false, not, ◌&&◌, Option, none, some, List, [], ◌∷◌, ◌++◌,
  is_empty, drop, length, starts_with, text_eq, text_beq, Dict, lookup, insert, if◌then◌else◌,
}
use devin_proxy.Data.{ChatToolCall}

pub record Call : Type 0 where
  pub id : Text
  pub name : Text
  pub args : Text

-- `active` is the empty text where Python has `None`.
pub record ToolAgg : Type 0 where
  pub calls : Dict Text Call
  pub order : List Text
  pub active : Text

abbrev pub empty : ToolAgg
empty = record { calls = []; order = []; active = [] }

-- What `feed` returns: the call's position, the call, whether its name is new, and the delta of its
-- arguments.
pub record Fed : Type 0 where
  pub index : ℕ
  pub call : Call
  pub new_name : Bool
  pub delta : Option Text

-- `self.order.index(cid)`
unfoldable pub index_of : Text → List Text → ℕ
index_of c [] = 0
index_of c (d ∷ ds) = if text_beq d c then 0 else suc (index_of c ds)

-- `tc.id or self.active`
abbrev pub or_active : Text → Text → Text
or_active [] active = active
or_active (c ∷ id) active = c ∷ id

-- `agg["args"]` and the delta, for arguments that are not empty: a cumulative text, or a piece.
unfoldable pub grow : Text → Text → Text × Text
grow old new = if starts_with new old then (new, drop (length old) new) else (old ++ new, new)

abbrev pub fresh : Text → Call
fresh cid = record { id = cid; name = []; args = [] }

-- `self.calls[cid]`, with the entry that is made if there is none
unfoldable pub call_of : ToolAgg → Text → Call
unfolding lookup
call_of t cid = elim (lookup cid t.calls) [ none ↦ fresh cid | some c ↦ c ]

unfoldable pub order_with : ToolAgg → Text → List Text
unfolding lookup
order_with t cid = elim (lookup cid t.calls) [ none ↦ t.order ++ cid ∷ [] | some c ↦ t.order ]

abbrev pub name_with : Text → Text → Text
name_with [] old = old
name_with (c ∷ new) old = c ∷ new

unfoldable pub args_with : Text → Text → Text × Option Text
unfolding grow
args_with old [] = (old, none)
args_with old (c ∷ new) = let (args, delta) = grow old (c ∷ new) in (args, some delta)

-- The body of `feed` behind the choice of the call.
unfoldable pub feed_call : ToolAgg → Text → ChatToolCall → ToolAgg × Fed
unfolding index_of call_of order_with args_with insert
feed_call t cid tc =
    let old = call_of t cid in
    let order = order_with t cid in
    let (args, delta) = args_with old.args tc.arguments in
    let call = record old { name = name_with tc.name old.name; args = args } in
    (
      record { calls = insert cid call t.calls; order = order; active = cid },
      record {
        index = index_of cid order;
        call = call;
        new_name = not (is_empty tc.name) && is_empty old.name;
        delta = delta;
      },
    )

-- `feed`
unfoldable pub feed : ToolAgg → ChatToolCall → ToolAgg × Option Fed
unfolding feed_call
feed t tc =
    let cid = or_active tc.id t.active in
    if is_empty cid then (t, none) else let (t', fed) = feed_call t cid tc in (t', some fed)
