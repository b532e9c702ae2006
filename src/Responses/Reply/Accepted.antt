-- ===== src/Responses/Reply/Accepted.antt =====
-- A whole streamed response of devin_proxy/responses.py follows the protocol of the event stream.
use devin_proxy.Prelude.{Text, ℕ, ◌≡◌, refl, List, [], ◌∷◌, ◌++◌, Option, ◌⊎◌, inl, inr}
use devin_proxy.Data.{ErrDict, Fields}
use devin_proxy.App.Ends.{LoopEnd, aborted_row, at_error, crashed, through}
use devin_proxy.App.Driver.Attempt.{Yield}
use devin_proxy.App.Driver.Loop.{Outcome, returned, disconnected, out_of_fuel}
use devin_proxy.Responses.Stream.{Emitter, send_yields, close_open, Frame, done_line}
use devin_proxy.Responses.Stream.Protocol.{
  View, at, initial, finished, over, Run, here, finish, Run-append, create, announce, complete,
  fail, report,
}
use devin_proxy.Responses.Stream.Followed.{IsFollowed, closed, Run-emit}
use devin_proxy.Responses.Stream.Accepted.{send_yields-IsFollowed}
use devin_proxy.Responses.Reply.{
  Job, setup, Streamed, sse, end_stream, send_failure, send_response, opening,
}

-- A stream is cut off, where its loop has ended by `e`: by an exception of the loop, behind which no row
-- is written, or since the client has gone.
pub data IsCut (o : Outcome) (e : LoopEnd) (s : Streamed) : Type 0 where
  by_exception : (text : Text) → e ≡ crashed text → s.rows ≡ [] → IsCut o e s
  by_client :
      (u : Option Fields) (a : Option ℕ)
      → o ≡ disconnected
      → e ≡ through
      → s.rows ≡ aborted_row u a ∷ []
      → IsCut o e s

-- The frames are a run of the protocol, to its end unless the stream is cut off.
pub record IsAccepted (o : Outcome) (e : LoopEnd) (s : Streamed) : Type 0 where
  pub count : ℕ
  pub last : View
  pub run : Run 0 initial s.frames count last
  pub ended : (last.phase ≡ finished) ⊎ IsCut o e s

module _ (job : Job) where
  opening-IsFollowed : IsFollowed (setup job) (opening job)
  opening-IsFollowed = record {
    calls = [];
    run = Run-emit (Run-emit here (create _ refl)) (announce _ refl);
    known = tt;
    busy = tt;
  }

  finished-Run :
      {fs : List Frame} {n : ℕ} {v : View}
      → Run 0 initial fs n v
      → v.phase ≡ over
      → Run 0 initial (fs ++ done_line ∷ []) n (at finished v)
  finished-Run h e = Run-append h (finish e here)

  send_failure-IsAccepted :
      (o : Outcome) (l : LoopEnd) (e : ErrDict) (s : Emitter)
      → IsFollowed (setup job) s
      → IsAccepted o l (send_failure job e (close_open (setup job) s))
  unfolding send_failure
  send_failure-IsAccepted o l e s h = record {
    count = _;
    last = _;
    run =
        finished-Run (Run-emit (Run-emit (closed (setup job) s h) (fail _ refl)) (report _ _ refl))
          refl;
    ended = inl refl;
  }

  send_response-IsAccepted :
      (o : Outcome) (l : LoopEnd) (s : Emitter)
      → IsFollowed (setup job) s
      → IsAccepted o l (send_response job (close_open (setup job) s))
  unfolding send_response
  send_response-IsAccepted o l s h = record {
    count = _;
    last = _;
    run = finished-Run (Run-emit (closed (setup job) s h) (complete _ refl)) refl;
    ended = inl refl;
  }

  end_stream-IsAccepted :
      (o : Outcome) (s : Emitter) (e : LoopEnd)
      → IsFollowed (setup job) s
      → IsAccepted o e (end_stream job o (s, e))
  unfolding end_stream
  end_stream-IsAccepted o s (at_error e) h = send_failure-IsAccepted o (at_error e) e s h
  end_stream-IsAccepted o s (crashed e) h = record {
    count = _;
    last = _;
    run = h.run;
    ended = inr (by_exception e refl refl);
  }
  end_stream-IsAccepted disconnected s through h = record {
    count = _;
    last = _;
    run = h.run;
    ended = inr (by_client _ _ refl refl refl);
  }
  end_stream-IsAccepted returned s through h = send_response-IsAccepted _ through s h
  end_stream-IsAccepted out_of_fuel s through h = send_response-IsAccepted _ through s h

  -- Whatever the driver yields, and however the deltas of text, reasoning and calls are mixed: the
  -- frames of a streamed response are a run of the protocol. Events are numbered from one without
  -- a gap; an item is added under the next output index, when no other is open, and every item is done
  -- before the next is added and before the response ends; an event of a part names the open item, and
  -- what is said to be done is all the text, or all the reasoning, of the deltas so far; a delta of a
  -- call names the item of a call that has been added; and the end is announced once, with the
  -- line that ends the stream as the last frame, unless the loop ends by an exception, behind which no row
  -- is written, or by the driver's notice that the client has gone.
  pub sse-IsAccepted :
      (ys : List Yield) (o : Outcome)
      → IsAccepted o (send_yields (setup job) ys (opening job)).1 (sse job ys o)
  unfolding sse
  sse-IsAccepted ys o =
      end_stream-IsAccepted o (send_yields (setup job) ys (opening job)).0
        (send_yields (setup job) ys (opening job)).1
        (send_yields-IsFollowed (setup job) ys (opening job) opening-IsFollowed)
