-- ===== src/Upstream/Usage.antt =====
-- What an answer reports about its use: `extract_usage` and `upstream_info` of
-- devin_proxy/upstream.py, and how the endpoints merge them. A count is the rounded value.
use devin_proxy.Prelude.{
  ℕ, Text, codes, ◌||◌, Option, none, some, List, [], ◌∷◌, is_empty, contains, text_beq, nat_beq,
  if◌then◌else◌,
}
use devin_proxy.Data.{
  Metric, RespInfo, ChatResponse, Try, done, raised, Json, Fields, num, str, obj, end, field, get,
}

-- `d[k] = v`
unfoldable pub put : Text → Json → Fields → Fields
put k v end = field k v end
put k v (field j w fs) = if text_beq j k then field j v fs else field j w (put k v fs)

-- `{**d, **e}`
unfoldable pub update : Fields → Fields → Fields
unfolding put
update d end = d
update d (field k v fs) = update (put k v d) fs

extra_of : Option Json → Fields
extra_of (some (obj fs)) = fs
extra_of _ = end

-- One metric of a report.
unfoldable pub take_metric : Fields → Metric → Fields
unfolding extra_of get
take_metric out m =
    if text_beq m.metric (codes "input_tokens")
    then put (codes "prompt_tokens") (num m.value) out
    else if text_beq m.metric (codes "output_tokens")
    then put (codes "completion_tokens") (num m.value) out
    else if contains m.metric (codes "cached") || contains m.metric (codes "cache_read")
    then put (codes "cached_tokens") (num m.value) out
    else if contains m.metric (codes "cache_creation") || contains m.metric (codes "cache_write")
    then put (codes "cache_creation_tokens") (num m.value) out
    else if text_beq m.metric (codes "model")
    then (if is_empty m.text then extra out m else put (codes "model") (str m.text) out)
    else extra out m
  where
    extra : Fields → Metric → Fields
    extra out m =
        if nat_beq m.value 0
        then out
        else put (codes "extra")
            (obj (put m.metric (num m.value) (extra_of (get (codes "extra") out)))) out

abbrev pub take_metrics : Fields → List Metric → Fields
take_metrics out [] = out
take_metrics out (m ∷ ms) = take_metrics (take_metric out m) ms

abbrev pub take_reports : Fields → List (List Metric) → Fields
take_reports out [] = out
take_reports out (r ∷ rs) = take_reports (take_metrics out r) rs

abbrev pub put_text : Text → Text → Fields → Fields
put_text k [] out = out
put_text k (c ∷ s) out = put k (str (c ∷ s)) out

-- `u.get(key, 0)` for a count
abbrev pub count_at : Text → Fields → ℕ
count_at k u = elim (get k u) [ some (num n) ↦ n | _ ↦ 0 ]

-- `out or None`
abbrev pub unless_empty : Fields → Option Fields
unless_empty end = none
unless_empty (field k v fs) = some (field k v fs)

abbrev pub or_end : Option Fields → Fields
or_end none = end
or_end (some fs) = fs

-- `usage = {**(usage or {}), **ui}` if there is an info
abbrev pub with_info : Option Fields → Option Fields → Option Fields
with_info usage none = usage
with_info usage (some ui) = some (update (or_end usage) ui)

-- `usage = {**(usage or {}), **extract_usage(ev)}`, which raises where the reports say nothing
abbrev pub with_reports : Option Fields → Option Fields → Try (Option Fields)
with_reports usage none = raised (codes "'NoneType' object is not a mapping")
with_reports usage (some u) = done (some (update (or_end usage) u))

-- `str.lower` is a parameter.
module _ (lower : Text → Text) where
  abbrev pub take_headers : Fields → List (Text × Text) → Fields
  take_headers out [] = out
  take_headers out ((name, value) ∷ hs) =
      take_headers
        (if text_beq (lower name) (codes "request-id")
          then put (codes "upstream_req_id") (str value) out
          else out)
        hs

  abbrev pub take_info : Fields → Option RespInfo → Fields
  take_info out none = out
  take_info out (some i) =
      take_headers
        (put_text (codes "upstream_msg_id") i.msg_id
          (put_text (codes "upstream_model_uid") i.model_uid out))
        i.headers

  -- `extract_usage`; the time that has gone by is in thousandths of a second.
  unfoldable pub extract_usage : ChatResponse → Option Fields
  unfolding take_metric put
  extract_usage m =
      let out = take_info (take_reports end m.usage) m.info in
      unless_empty
        (if nat_beq m.elapsed 0 then out else put (codes "elapsed_s") (num m.elapsed) out)

  -- `upstream_info`
  unfoldable pub upstream_info : ChatResponse → Option Fields
  unfolding put
  upstream_info m = unless_empty (take_info end m.info)

  -- What the endpoints do with the usage of each message.
  unfoldable pub add_usage : Option Fields → ChatResponse → Try (Option Fields)
  unfolding extract_usage upstream_info update
  add_usage usage m =
      elim (if is_empty m.usage then done usage else with_reports usage (extract_usage m)) [
        | done u ↦ done (with_info u (upstream_info m))
        | raised e ↦ raised e
      ]
