-- ===== src/Backend/Connectors.antt =====
-- backend/app/connectors.py: calls of an external system, and the executor that retries them.
pub mod Retries
mod Tests
use vision_qc.Prelude.{
  ℕ, zero, suc, ◌+◌, String, Option, none, some, Bool, true, false, ◌&&◌, ◌||◌, not, List, [], ◌∷◌,
  ◌++◌, leb, ◌==◌, if◌then◌else◌, find_first, str_eq, length, ◌≤◌,
}

-- The subclasses of `ConnectorError`.
pub data ConnectorError : Type 0 where
  retryable_error terminal_error manual_review_error : ConnectorError

abbrev pub retryable : ConnectorError → Bool
retryable retryable_error = true
retryable _ = false

abbrev pub requires_manual_review : ConnectorError → Bool
requires_manual_review manual_review_error = true
requires_manual_review _ = false

pub record ConnectorResult : Type 0 where
  pub external_reference : String
  pub status : String
  pub summary : String

-- What a call of `Connector.execute` comes to; `crashed` is an exception of another class.
pub data Call : Type 0 where
  done : ConnectorResult → Call
  refused : ConnectorError → Call
  crashed : Call

-- A connector with its state `S`: the operation and the idempotency key, and the state after it.
abbrev pub Connector : Type 0 → Type 0
Connector S = String → String → S → Call × S

-- What the HTTP library reports of a request.
pub data HttpReply : Type 0 where
  transport_error other_error : HttpReply
  reply : ℕ → Option ConnectorResult → HttpReply

-- `HttpConnector.execute` on a reply; the body is `none` if it cannot be read as a result.
unfoldable pub classify : HttpReply → Call
classify transport_error = refused retryable_error
classify other_error = crashed
classify (reply code body) =
    if leb 500 code || code == 429
    then refused retryable_error
    else if code == 409
    then refused manual_review_error
    else if not (leb 200 code && leb code 299)
    then refused terminal_error
    else elim body [ none ↦ crashed | some r ↦ done r ]

-- `InMemoryConnector`
pub record Memory : Type 0 where
  pub records : List (String × ConnectorResult)
  pub calls : List String
  pub fail_after_create_once : Bool
  pub always_fail : Bool

abbrev pub record_of : String → List (String × ConnectorResult) → Option ConnectorResult
record_of key [] = none
record_of key ((k, r) ∷ rest) =
    let later = record_of key rest in if str_eq k key then some r else later

abbrev pub new_result : (ℕ → String) → String → Memory → ConnectorResult
new_result reference operation m = record {
  external_reference = reference (length m.records + 1);
  status = if str_eq operation "CREATE_TICKET" then "OPEN" else "COMPLETED";
  summary = operation;
}

-- `execute` of `InMemoryConnector`; `reference` is the text `f"{name}-{len(records) + 1}"`.
unfoldable pub memory_execute : (ℕ → String) → Connector Memory
memory_execute reference operation key m =
    let called = record m { calls = m.calls ++ key ∷ [] } in
    elim (record_of key m.records) [
      | some r ↦ (done r, called)
      | none ↦
          let r = new_result reference operation m in
          if m.always_fail
          then (refused retryable_error, called)
          else if m.fail_after_create_once
          then (
            refused retryable_error,
            record called { records = m.records ++ (key, r) ∷ []; fail_after_create_once = false },
          )
          else (done r, record called { records = m.records ++ (key, r) ∷ [] })
    ]

pub record ExecutionOutcome : Type 0 where
  pub result : Option ConnectorResult
  pub attempts : ℕ
  pub error : Option ConnectorError

abbrev pub outcome : Option ConnectorResult → ℕ → Option ConnectorError → Option ExecutionOutcome
outcome r n e = some (record { result = r; attempts = n; error = e })

module _ {S : Type 0} (connector : Connector S) (max_attempts : ℕ) (operation key : String) where
  -- The rounds of the loop that are left, the number of this one, and the last error; `none` is an
  -- exception that leaves the executor.
  unfoldable pub attempts_from : ℕ → ℕ → Option ConnectorError → S → Option ExecutionOutcome × S
  attempts_from zero attempt last s = (outcome none max_attempts last, s)
  attempts_from (suc left) attempt last s =
      let (c, s') = connector operation key s in
      elim c [
        | done r ↦ (outcome (some r) attempt none, s')
        | crashed ↦ (none, s')
        | refused e ↦
            let again = attempts_from left (attempt + 1) (some e) s' in
            if not (retryable e) || attempt == max_attempts
            then (outcome none attempt (some e), s')
            else again
      ]

  -- `RetryingConnectorExecutor.execute`; the waits between attempts change nothing.
  unfoldable pub execute : S → Option ExecutionOutcome × S
  unfolding attempts_from
  execute s = attempts_from max_attempts 1 none s
