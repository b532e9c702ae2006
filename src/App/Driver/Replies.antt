-- ===== src/App/Driver/Replies.antt =====
-- The whole driver: it ends, and what it has sent by then is a reply.
use devin_proxy.Prelude.{Bool, ◌≢◌, List}
use devin_proxy.Accounts.Pool.State.{Pool}
use devin_proxy.App.Driver.Attempt.{Yield}
use devin_proxy.App.Driver.Loop.{Driver, Outcome, out_of_fuel}
use devin_proxy.App.Driver.Turns.{IsReply}

-- The driver has ended, by a return or since the client went away, and has sent a reply.
pub record IsDone (live : Bool) (r : List Yield × Pool × Outcome) : Type 0 where
  pub reply : IsReply live r.0
  pub ended : r.2 ≢ out_of_fuel
