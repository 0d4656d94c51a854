-- ===== src/Provider/Tests.antt =====
-- Runs of the retries and of the fallback (src/providers/reliable.rs, fallback.rs,
-- error_classify.rs), and their theorems at inputs.
use openpaw.Prelude.{
  ℕ, ◌+◌, ◌≤◌, ◌≡◌, refl, ◌≢◌, true, List, [], ◌∷◌, Text, codes, arith, Option, none, some, length,
}
use openpaw.Scan.{split_whitespace, parse_u16, parse_u64}
use openpaw.Breaker.{
  CircuitBreaker, opened, new as new_breaker, default_config, check_and_attempt, record_success,
  record_failure,
}
use openpaw.Provider.{
  Provider, Reply, ok, err, hung, new_state, can_retry, increment_attempts, is_retryable,
}
use openpaw.Provider.Classify.{
  Outside, extract_status_from_message, status_kind, json_kind, classify_full, classify,
  parse_retry_after, parse_context_limit_from_error,
}
use openpaw.Provider.Reliable as Reliable
use openpaw.Provider.Reliable.{
  Clock, Place, ReliableProvider, provider, fresh_breaker, open_message,
}
use openpaw.Provider.Fallback as Fallback
use openpaw.Provider.Fallback.{verdict, rotate}
use openpaw.Provider.Kinds.{IsSound, classify_full-IsSound}
use openpaw.Provider.Spent.{Spent, IsThrifty}
use openpaw.Provider.Budget.{provider-IsThrifty}
use openpaw.Provider.Rotation.{chat-calls}
use openpaw.Provider.Moves.{rotate-opened}

program : Unit {0}
unfolding new_state can_retry increment_attempts is_retryable check_and_attempt record_success
    record_failure extract_status_from_message status_kind json_kind classify_full classify
    parse_retry_after parse_context_limit_from_error Reliable.attempt_loop Reliable.chat_with_retry
    Reliable.chat Fallback.rotate Fallback.chat_with_retry Fallback.chat verdict split_whitespace
    parse_u16 parse_u64 new_breaker default_config
program = tt

-- The clock, the calls so far, the breaker of the first provider, and what the service will answer.
record World : Type 0 where
  time : ℕ
  calls : ℕ
  breaker : CircuitBreaker
  script : List (Option Text)

abbrev clock : Clock World
clock = record { now = λ w. w.time; sleep = λ ms w. record w { time = w.time + ms } }

abbrev place : Place World CircuitBreaker
place = record { read = λ w. w.breaker; write = λ b w. record w { breaker = b } }

-- No table of case and no pattern is needed for the texts below, which are no JSON.
abbrev outside : Outside
outside = record { to_lowercase = λ s. s; captures = λ p s. none; from_str = λ s. none }

-- `none` is an error of the network.
abbrev next_reply : List (Option Text) → Reply Text × List (Option Text)
next_reply [] = (err (codes "connection refused"), [])
next_reply (none ∷ rest) = (err (codes "connection refused"), rest)
next_reply (some reply ∷ rest) = (ok reply, rest)

-- A client without retries of its own.
abbrev answer_of : World → Reply Text × World
answer_of w =
    let (reply, rest) = next_reply w.script in
    (reply, record w { calls = w.calls + 1; script = rest })

abbrev client : Text → Provider World Text
client name = record {
  chat_with_retry = λ shared w. let (reply, w') = answer_of w in (reply, shared, w');
  chat_stream = answer_of;
  supports_native_tools = true;
  get_name = name;
}

abbrev reliable : ReliableProvider World Text
reliable = record {
  inner = client (codes "openai");
  max_retries = 3;
  initial_backoff_ms = 1000;
  max_backoff_ms = 30_000;
  circuit_breaker = place;
}

abbrev start : List (Option Text) → World
start script = record { time = 0; calls = 0; breaker = fresh_breaker; script = script }

-- Two failures of the network, then an answer: two waits of one and two seconds.
third_time_lucky :
    let (reply, w) =
      Reliable.chat outside clock reliable (start (none ∷ none ∷ some (codes "hi") ∷ [])) in
    ((reply ≡ ok (codes "hi")) × (w.calls ≡ 3) × (w.time ≡ 3000))
unfolding program
third_time_lucky = (refl, refl, refl)

-- An error that keeps coming: four calls, and waits of one, two and four seconds.
no_luck :
    let (reply, w) = Reliable.chat outside clock reliable (start []) in
    ((reply ≡ err (codes "connection refused")) × (w.calls ≡ 4) × (w.time ≡ 7000))
unfolding program
no_luck = (refl, refl, refl)

-- A number of seconds counts as a status, and the error is not retried.
seconds_as_status :
    extract_status_from_message (codes "operation timed out after 300 seconds") ≡ 300
unfolding program
seconds_as_status = refl

next_reply-returned : (script : List (Option Text)) → (next_reply script).0 ≢ hung
next_reply-returned [] h = cc
next_reply-returned (none ∷ rest) h = cc
next_reply-returned (some reply ∷ rest) h = cc

client-IsThrifty : (name : Text) → IsThrifty (λ w. w.calls) (client name)
client-IsThrifty name shared w small = record {
  returned = next_reply-returned w.script;
  limit = refl;
  counted = omega arith;
  within = omega arith;
  paid = omega arith;
}

abbrev row : List (Provider World Text)
row = provider outside clock reliable ∷ client (codes "gemini") ∷ []

chat-calls_example :
    ((Fallback.chat outside clock row (start [])).0 ≢ hung)
    × ((Fallback.chat outside clock row (start [])).1.calls ≤ 0 + length row + 3)
chat-calls_example =
    chat-calls (λ w. w.calls) outside clock (λ ms w. refl) row (start [])
      (
        provider-IsThrifty (λ w. w.calls) outside clock reliable ((λ ms w. refl), λ b w. refl)
            (client-IsThrifty (codes "openai")),
        (client-IsThrifty (codes "gemini"), tt),
      )

abbrev down : World
down = record (start []) {
  breaker = record fresh_breaker { state = opened; failures = 5; last_failure_time = some 0 };
}

rotate-opened_example :
    rotate outside clock 0 row [] [] (new_state 3) down
    ≡ rotate outside clock 1 (client (codes "gemini") ∷ []) [] open_message (new_state 3) down
unfolding new_breaker default_config new_state can_retry
rotate-opened_example =
    rotate-opened outside clock reliable down refl refl refl 0 (client (codes "gemini") ∷ []) [] []
      (new_state 3) refl refl

provider-IsThrifty_example :
    Spent
      (λ w. w.calls)
      1
      (new_state 3)
      (start [])
      (Reliable.chat_with_retry outside clock reliable (new_state 3) (start []))
unfolding new_state
provider-IsThrifty_example =
    provider-IsThrifty (λ w. w.calls) outside clock reliable ((λ ms w. refl), λ b w. refl)
      (client-IsThrifty (codes "openai")) (new_state 3) (start []) (omega arith)

classify_full-IsSound_example : IsSound (classify_full outside 429 (codes "slow down"))
classify_full-IsSound_example = classify_full-IsSound outside 429 (codes "slow down")
