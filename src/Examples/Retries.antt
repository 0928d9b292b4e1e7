-- ===== src/Examples/Retries.antt =====
-- The first attempt times out, and the second succeeds; and a run without an id.
use warpfile.Common.{ℕ, zero, suc, ◌≡◌, refl, [], ◌∷◌, Result, ok, err}
use warpfile.Io.{ErrorKind, timed_out, other}
use warpfile.Protocol.TransferId.{TransferId}
use warpfile.Sender.Session.{SenderV03SessionError, connect}
use warpfile.Sender.Retry.{
  IsRun, identity_failed, run_sender_v03, attempts_from, is_retryable,
  v03_is_retryable_network_kind, run_sender_v03_lem,
}

abbrev two_tries : TransferId → ℕ → Result (Unit {0}) SenderV03SessionError
two_tries id (suc zero) = err (connect timed_out)
two_tries id _ = ok tt

abbrev generated : Result TransferId ErrorKind
generated = ok (record { bytes = 1 ∷ [] })

retry_run : run_sender_v03 generated two_tries ≡ ok tt
unfolding run_sender_v03 attempts_from is_retryable v03_is_retryable_network_kind
retry_run = refl

abbrev no_id : Result TransferId ErrorKind
no_id = err timed_out

no_id_run : run_sender_v03 no_id two_tries ≡ err (identity_failed other)
unfolding run_sender_v03
no_id_run = refl

run_sender_v03_lem_example : IsRun generated two_tries (run_sender_v03 generated two_tries)
run_sender_v03_lem_example = run_sender_v03_lem generated two_tries
