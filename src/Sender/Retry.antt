-- ===== src/Sender/Retry.antt =====
-- The retries of `run_sender_v03` (src/sender_v03.rs). What an attempt comes to is a parameter: a
-- session runs on a new connection each time.
use warpfile.Common.{
  ℕ, zero, suc, ◌+◌, ◌≤◌, ◌<◌, ◌≡◌, ◌⊎◌, inl, inr, refl, arith, Bool, true, false, ◌&&◌, ltb,
  if◌then◌else◌,
}
use warpfile.Common.{
  Result, ok, err, panic, map_err, ◌>>=◌, Bool-cases, Result-cases, ==→eq, ◌==◌, subst, ltb→lt,
}
use warpfile.Io.{
  ErrorKind, connection_refused, connection_reset, connection_aborted, not_connected, broken_pipe,
  timed_out, unexpected_eof, interrupted, write_zero, other,
}
use warpfile.Protocol.TransferId.{TransferId}
use warpfile.Protocol.Stream.{ProtocolIoError, io}
use warpfile.Sender.Inventory.{SenderV03NegotiationError}
use warpfile.Sender.Inventory
use warpfile.Sender.Transfer.{SenderV03TransferError}
use warpfile.Sender.Transfer
use warpfile.Sender.Session.{SenderV03SessionError, connect, protocol, negotiation, transfer}

abbrev pub v03_max_send_attempts : ℕ
v03_max_send_attempts = 3

unfoldable pub v03_is_retryable_network_kind : ErrorKind → Bool
v03_is_retryable_network_kind connection_refused = true
v03_is_retryable_network_kind connection_reset = true
v03_is_retryable_network_kind connection_aborted = true
v03_is_retryable_network_kind not_connected = true
v03_is_retryable_network_kind broken_pipe = true
v03_is_retryable_network_kind timed_out = true
v03_is_retryable_network_kind unexpected_eof = true
v03_is_retryable_network_kind interrupted = true
v03_is_retryable_network_kind write_zero = true
v03_is_retryable_network_kind _ = false

unfoldable pub v03_is_retryable_protocol : ProtocolIoError ErrorKind → Bool
v03_is_retryable_protocol (io kind) = v03_is_retryable_network_kind kind
v03_is_retryable_protocol _ = false

-- `SenderV03NegotiationError::is_retryable`
unfoldable pub negotiation_is_retryable : SenderV03NegotiationError → Bool
negotiation_is_retryable (Inventory.protocol e) = v03_is_retryable_protocol e
negotiation_is_retryable _ = false

-- `SenderV03TransferError::is_retryable`
unfoldable pub transfer_is_retryable : SenderV03TransferError → Bool
transfer_is_retryable (Transfer.protocol e) = v03_is_retryable_protocol e
transfer_is_retryable _ = false

-- `SenderV03SessionError::is_retryable`
unfoldable pub is_retryable : SenderV03SessionError → Bool
is_retryable (connect kind) = v03_is_retryable_network_kind kind
is_retryable (protocol e) = v03_is_retryable_protocol e
is_retryable (negotiation e) = negotiation_is_retryable e
is_retryable (transfer e) = transfer_is_retryable e
is_retryable _ = false

-- What follows an attempt: the next one, or the end.
abbrev pub after_attempt :
    ℕ
    → Result (Unit {0}) SenderV03SessionError
    → Result (Unit {0}) SenderV03SessionError
    → Result (Unit {0}) SenderV03SessionError
after_attempt attempt again (ok done) = ok done
after_attempt attempt again (err e) =
    if is_retryable e && ltb attempt v03_max_send_attempts then again else err e
after_attempt attempt again panic = panic

-- `for attempt in 1..=V03_MAX_SEND_ATTEMPTS`, with the number of attempts that are left; behind the
-- loop stands `unreachable!`.
unfoldable pub attempts_from :
    (ℕ → Result (Unit {0}) SenderV03SessionError) → ℕ → ℕ → Result (Unit {0}) SenderV03SessionError
attempts_from session zero attempt = panic
attempts_from session (suc left) attempt =
    let again = attempts_from session left (suc attempt) in
    after_attempt attempt again (session attempt)

-- The `Box<dyn Error>` of `run_sender_v03`: an I/O error where there is no id, or the error of the
-- last attempt.
pub data RunSenderError : Type 0 where
  identity_failed : ErrorKind → RunSenderError
  session_failed : SenderV03SessionError → RunSenderError

-- `generated` is what `TransferId::generate` gave; each attempt gets the same id.
unfoldable pub run_sender_v03 :
    {E : Type 0}
    → Result TransferId E
    → (TransferId → ℕ → Result (Unit {0}) SenderV03SessionError)
    → Result (Unit {0}) RunSenderError
run_sender_v03 generated session = do
  transfer_id ← map_err (λ _. identity_failed other) generated
  map_err session_failed (attempts_from (session transfer_id) v03_max_send_attempts 1)

module _ (session : ℕ → Result (Unit {0}) SenderV03SessionError) where
  -- An attempt that failed in a way that another may mend.
  abbrev pub FailedForNow : ℕ → Type 0
  FailedForNow j = (e : SenderV03SessionError) × (session j ≡ err e) × (is_retryable e ≡ true)

  abbrev pub Outcome : ℕ → ℕ → Result (Unit {0}) SenderV03SessionError → Type 0
  Outcome first k result =
      (first ≤ k)
      × (k ≤ v03_max_send_attempts)
      × (result ≡ session k)
      × ((j : ℕ) → first ≤ j → j < k → FailedForNow j)
      × ((k ≡ v03_max_send_attempts)
          ⊎ ((e : SenderV03SessionError) → session k ≡ err e → is_retryable e ≡ false))

  ended :
      (attempt : ℕ) (result : Result (Unit {0}) SenderV03SessionError)
      → attempt ≤ v03_max_send_attempts
      → result ≡ session attempt
      → ((attempt ≡ v03_max_send_attempts)
          ⊎ ((e : SenderV03SessionError) → session attempt ≡ err e → is_retryable e ≡ false))
      → Outcome attempt attempt result
  ended attempt result h same why = (omega arith, h, same, (λ j a b. absurd (omega arith)), why)

  before :
      (attempt k : ℕ) (result : Result (Unit {0}) SenderV03SessionError)
      → FailedForNow attempt
      → Outcome (suc attempt) k result
      → Outcome attempt k result
  before attempt k result failed (a, b, c, d, e) = (
    omega arith,
    b,
    c,
    (λ j lo hi. elim (Bool-cases (attempt == j)) [
      | inl same ↦ let at = ==→eq attempt j same in subst FailedForNow at failed
      | inr differ ↦ d j (ground arith) hi
    ]),
    e,
  )

  attempt-Outcome :
      (left attempt : ℕ)
      → attempt + suc left ≡ suc v03_max_send_attempts
      → (attempt < v03_max_send_attempts
          → (k : ℕ) × Outcome (suc attempt) k (attempts_from session left (suc attempt)))
      → (k : ℕ) × Outcome attempt k (attempts_from session (suc left) attempt)
  unfolding attempts_from
  attempt-Outcome left attempt sum further = elim (Result-cases (session attempt)) [
    | inl (inl (u, p)) ↦
        (attempt, ended attempt _ (omega arith) (rw p refl) (inr (λ e h. cc (h, p))))
    | inr p ↦ (attempt, ended attempt _ (omega arith) (rw p refl) (inr (λ e h. cc (h, p))))
    | inl (inr (e, p)) ↦ elim (Bool-cases (is_retryable e)) [
      | inr lasting ↦ (
        attempt,
        ended attempt _ (omega arith) (rw (p, lasting) refl)
            (inr (λ e' h. let same : e ≡ e' = cc (h, p) in rw (← same) lasting)),
      )
      | inl passing ↦ elim (Bool-cases (ltb attempt v03_max_send_attempts)) [
        | inr last ↦ (
          attempt,
          ended attempt _ (omega arith) (rw (p, passing, last) refl) (inl (ground arith)),
        )
        | inl more ↦
            let (k, rest) = further (ltb→lt _ _ more) in
            (k, rw (p, passing, more) (before attempt k _ (e, p, passing) rest))
      ]
    ]
  ]

  attempts_from-Outcome :
      (left attempt : ℕ)
      → attempt + suc left ≡ suc v03_max_send_attempts
      → (k : ℕ) × Outcome attempt k (attempts_from session (suc left) attempt)
  attempts_from-Outcome zero attempt sum =
      attempt-Outcome zero attempt sum (λ h. absurd (omega arith))
  attempts_from-Outcome (suc left) attempt sum =
      attempt-Outcome (suc left) attempt sum
        (λ h. attempts_from-Outcome left (suc attempt) (omega arith))

-- What becomes of a run, by what the generator of ids gave.
abbrev pub IsRun :
    {E : Type 0}
    → Result TransferId E
    → (TransferId → ℕ → Result (Unit {0}) SenderV03SessionError)
    → Result (Unit {0}) RunSenderError
    → Type 0
IsRun (ok transfer_id) session result =
    (end : Result (Unit {0}) SenderV03SessionError) × (k : ℕ) × (result
      ≡ map_err session_failed end)
    × Outcome (session transfer_id) 1 k end
IsRun (err e) session result = result ≡ err (identity_failed other)
IsRun panic session result = result ≡ panic

-- Without an id, `run_sender_v03` returns an error before any attempt. With an id it comes to the
-- outcome of one of its attempts with that id, the first, the second or the third: each attempt
-- before that one has failed with an error that `is_retryable` accepts, and that attempt is the
-- third, or has not failed so. The `unreachable!` behind the loop is not reached.
pub run_sender_v03_lem :
    {E : Type 0} (generated : Result TransferId E)
    (session : TransferId → ℕ → Result (Unit {0}) SenderV03SessionError)
    → IsRun generated session (run_sender_v03 generated session)
unfolding run_sender_v03
run_sender_v03_lem (ok transfer_id) session =
    let (k, outcome) = attempts_from-Outcome (session transfer_id) 2 1 refl in
    (attempts_from (session transfer_id) v03_max_send_attempts 1, k, refl, outcome)
run_sender_v03_lem (err e) session = refl
run_sender_v03_lem panic session = refl
