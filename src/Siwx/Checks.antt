-- ===== src/Siwx/Checks.antt =====
-- What the adapters in siwx/solana/adapter.go and siwx/evm/adapter.go share: the clock of the options,
-- and the loop over the checks, which both files spell the same way.
pub mod Trail
pub mod Returned
use siwx_go.Base.{ℕ, List, [], ◌∷◌, ◌++◌, Bytes, Bool, true, false, Option, none, some}
use siwx_go.Siwx.Errors.{Error, Outcome, returned, failed, crashed}
use siwx_go.Siwx.Observer.{CheckName, Event, check_result}
use siwx_go.Siwx.Verifier.{Clock, ObserverField, VerifyOpts, Run, ◌then_do◌, finish, emit}

-- `opts.Clock.Now()`: a panic on a `nil` clock.
unfoldable pub read_clock : Option Clock → ℕ → Run ℕ
read_clock none n = finish crashed
read_clock (some clock) n = finish (returned (clock n))

-- The body of the loop over `checks`, behind the call of the check.
unfoldable pub conclude : VerifyOpts → CheckName → Option Error → Run (Unit {0})
unfolding emit
conclude opts name none = emit opts.observer (check_result opts.attempt_id name true)
conclude opts name (some e) =
    emit opts.observer (check_result opts.attempt_id name false) then_do λ _. finish (failed e)
