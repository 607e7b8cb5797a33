-- ===== src/Backend/Connectors/Retries.antt =====
-- What the retrying executor guarantees, for any connector and for the in-memory one.
use vision_qc.Prelude.{ℕ, ◌≤◌, String, Option, none, some, false, ◌≡◌, ◌⊎◌}
use vision_qc.Backend.Connectors.{
  ConnectorError, retryable, Connector, ConnectorResult, ExecutionOutcome,
}

module _ {S : Type 0} (connector : Connector S) (max : ℕ) (operation key : String) where
  -- How a call that made `n` attempts may end: with a result and no error, or with no result and an
  -- error that is not to be retried, or that came at the last attempt.
  abbrev pub Ends : ℕ → Option ConnectorResult → Option ConnectorError → Type 0
  Ends n (some r) none = Unit
  Ends n none (some e) = (retryable e ≡ false) ⊎ (n ≡ max)
  Ends n _ _ = ⊥

  abbrev pub IsOutcome : ExecutionOutcome → Type 0
  IsOutcome o = (1 ≤ o.attempts) × (o.attempts ≤ max) × Ends o.attempts o.result o.error
