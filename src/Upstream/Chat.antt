-- ===== src/Upstream/Chat.antt =====
-- `stream_chat` of devin_proxy/upstream.py around its frames: the answer that is no stream, the
-- error of a trailer, and how the pool takes both.
use devin_proxy.Prelude.{
  ℕ, Text, Bool, true, false, ◌≡◌, refl, subst, Option, none, some, List, [], ◌∷◌, take, leb,
  nat_beq, not, if◌then◌else◌, ◌&&◌,
}
use devin_proxy.Data.{Json, ErrDict, http_error, upstream_error, plain_error, failed}
use devin_proxy.Accounts.Failure.{dict, is_hard_failure}
use devin_proxy.Upstream.Errors.{
  Scope, account, soft, transient, acct_hints, hinted, is_soft, is_transient, err_scope,
  trailer_details, TrailerDetails,
}
use devin_proxy.Upstream.Frames.{Bytes, Codec, Out, http_body, yielded, read_body}

-- The error dict of a trailer with a message; none for a message that is empty.
abbrev pub detail : TrailerDetails → Scope → Option Text → Option ErrDict
detail d scope none = none
detail d scope (some []) = none
detail d scope (some (c ∷ m)) = some (record (plain_error upstream_error (c ∷ m)) {
  code = d.code;
  soft = is_soft scope;
  transient = is_transient scope;
  retry_after = d.retry_after;
})

abbrev pub is_account : Scope → Bool
is_account account = true
is_account _ = false

-- `str.lower`, `json.dumps`, the number of a retry-after value, `json.loads` of a trailer (`none`
-- where it raises) and the decoding of UTF-8 with replacement
module _ (lower : Text → Text) (dumps : Json → Text) (seconds : Json → Option ℕ)
    (loads : Bytes → Option Json) (decode : Bytes → Text) where
  -- The scope that a trailer's error has.
  unfoldable pub trailer_scope : Bytes → Scope
  unfolding trailer_details err_scope
  trailer_scope raw =
      err_scope lower dumps seconds (trailer_details lower dumps seconds (loads raw)).code
        (take 4000 (decode raw))

  -- The error that a trailer reports, if it reports one.
  unfoldable pub trailer_error : Bytes → Option ErrDict
  unfolding trailer_scope
  trailer_error raw =
      let d = trailer_details lower dumps seconds (loads raw) in
      detail d (trailer_scope raw) d.message

  -- The error of an answer whose status is not 200.
  unfoldable pub status_error : ℕ → Bytes → ErrDict
  unfolding hinted
  status_error status body =
      let m = take 2000 (decode body) in
      record (plain_error http_error m) {
        http_status = some status;
        transient = leb 500 status && not (hinted (lower m) acct_hints);
      }

  -- What is captured and yielded for an answer: its status, its whole body, and the pieces that
  -- the body comes in. The capture of the headers is left out.
  unfoldable pub stream_chat : Codec → ℕ → Bytes → List Bytes → List Out
  unfolding status_error read_body
  stream_chat codec status body chunks =
      if nat_beq status 200
      then read_body codec chunks
      else http_body body ∷ yielded (failed (status_error status body)) ∷ []

  -- The error of a trailer counts against the account exactly when the trailer's code and text
  -- are in the account's scope.
  pub is_hard_failure-trailer_error :
      (raw : Bytes) (e : ErrDict)
      → trailer_error raw ≡ some e
      → is_hard_failure lower (dict e) ≡ is_account (trailer_scope raw)
  unfolding trailer_error is_hard_failure
  is_hard_failure-trailer_error raw e h =
      let d = trailer_details lower dumps seconds (loads raw) in
      hard d (trailer_scope raw) d.message e h
    where
      some_inj : {a b : ErrDict} → some a ≡ some b → a ≡ b
      some_inj h = cc

      by_scope :
          (d : TrailerDetails) (c : ℕ) (m : Text) (scope : Scope)
          → is_hard_failure lower (
              dict (record (plain_error upstream_error (c ∷ m)) {
                code = d.code;
                soft = is_soft scope;
                transient = is_transient scope;
                retry_after = d.retry_after;
              }))
            ≡ is_account scope
      by_scope d c m account = refl
      by_scope d c m soft = refl
      by_scope d c m transient = refl

      hard :
          (d : TrailerDetails) (scope : Scope) (m : Option Text) (e : ErrDict)
          → detail d scope m ≡ some e
          → is_hard_failure lower (dict e) ≡ is_account scope
      hard d scope none e h = cc
      hard d scope (some []) e h = cc
      hard d scope (some (c ∷ m)) e h =
          subst (λ x. is_hard_failure lower (dict x) ≡ is_account scope) (some_inj h)
            (by_scope d c m scope)
