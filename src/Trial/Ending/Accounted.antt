-- ===== src/Trial/Ending/Accounted.antt =====
-- Where the actions of a completed trial's decisions have gone.
use chers.Base.{ℕ, ◌≡◌, Bool, ◌&&◌, none, List, [], ltb, leb, if◌then◌else◌}
use chers.Base.Predicates.{sum_by}
use chers.Bridge.State.{Bridge}
use chers.Bridge.Actions.{Floats}
use chers.Bridge.Ledger.{proposal, ending}
use chers.Verifier.Json.{Numbers}
use chers.Trial.{Decision, Trial, completed}
use chers.Trial.Tally.{accepted, Tally}
use chers.Trial.Ending.{TrialEnd, reported}

-- How many actions the decisions have accepted.
abbrev pub accepted_total : List Decision → ℕ
accepted_total ds = sum_by (λ (d : Decision). accepted d.result) ds

-- 1 for the numbers from 1 to a count, and 0 for others.
abbrev pub one_up_to : ℕ → ℕ → ℕ
one_up_to n k = if ltb 0 k && leb k n then 1 else 0

-- Each number from 1 to the number of accepted actions was proposed once, and sent or dropped once,
-- and no other number was; and nothing waits.
pub record AllEnded (t : Trial) : Type 0 where
  pub proposed :
      (k : ℕ) → sum_by (proposal k) t.bridge.events ≡ one_up_to (accepted_total t.decisions) k
  pub waiting_none : t.bridge.pending ≡ []
  pub ended : (k : ℕ) → sum_by (ending k) t.bridge.events ≡ one_up_to (accepted_total t.decisions) k

module _ (clock : ℕ → ℕ) (key_works : ℕ → ℕ → Bool) (floats : Floats) (other_upper : ℕ → List ℕ)
    (encode : List ℕ → List ℕ) (numbers : Numbers) where
  open numbers use {Float}

  -- The end of a trial, as far as it is one that completed with a bridge that has not failed.
  abbrev Accounts : TrialEnd → Type 0
  Accounts (reported r) = r.status ≡ completed → r.trial.bridge.failure ≡ none → AllEnded r.trial
  Accounts _ = Unit
