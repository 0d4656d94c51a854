-- ===== src/Provider/Kinds.antt =====
-- What the classification of an error (src/providers/error_classify.rs) says of its status and body.
use openpaw.Prelude.{
  ℕ, ◌≤◌, ◌≡◌, refl, ◌↔◌, inl, inr, Bool, true, false, ◌&&◌, Option, none, some, List, [], ◌∷◌,
  Text, codes, String, arith, any, ◌==◌, ltb, leb, is_some, sym, ap, ◌∙◌, Bool-cases, Option-cases,
  if◌then◌else◌,
}
use mathlib.Core.Bool.{true≢false}
use openpaw.Provider.{
  ApiErrorKind, rate_limit, quota, auth, model_down, network, context_overflow, credit_exhausted,
  unknown, ErrorInfo,
}
use openpaw.Provider.Classify.{
  Outside, first_capture, captured, or_later, retry_patterns, context_patterns, output_patterns,
  is_output_cap, parse_retry_after, parse_context_limit_from_error,
  parse_available_output_tokens_from_error, status_kind, json_kind, type_kind, body_kind, or_body,
  classify_full, classify,
}

-- What holds of a number, if there is one.
abbrev Each : (ℕ → Type 0) → Option ℕ → Type 0
Each P none = Unit
Each P (some n) = P n

-- The numbers that a kind carries are those of the information.
abbrev Carries : ErrorInfo → ApiErrorKind → Type 0
Carries info (rate_limit retry_after_secs) = retry_after_secs ≡ info.retry_after_secs
Carries info (context_overflow limit output) =
    (limit ≡ info.context_limit) × (output ≡ info.available_output_tokens)
Carries info quota = Unit
Carries info auth = Unit
Carries info model_down = Unit
Carries info network = Unit
Carries info credit_exhausted = Unit
Carries info unknown = Unit

pub record IsSound (info : ErrorInfo) : Type 0 where
  pub retry : Each (λ n. (1 ≤ n) × (n ≤ 3600)) info.retry_after_secs
  pub context : Each (λ n. (1024 ≤ n) × (n ≤ 10_000_000)) info.context_limit
  pub output : Each (λ n. 1 ≤ n) info.available_output_tokens
  pub carries : Carries info info.kind

module _ (test : ℕ → Bool) (P : ℕ → Type 0) (sound : (n : ℕ) → test n ≡ true → P n) where
  or_later-Each : (found later : Option ℕ) → Each P later → Each P (or_later test found later)
  or_later-Each none later h = h
  or_later-Each (some n) later h = elim (Bool-cases (test n)) [
    | inl y ↦ rw y (sound n y)
    | inr e ↦ rw e h
  ]

  first_capture-Each :
      (o : Outside) (ps : List String) (s : Text) → Each P (first_capture o test ps s)
  first_capture-Each o [] s = tt
  first_capture-Each o (p ∷ ps) s =
      or_later-Each (captured o (codes p) s) (first_capture o test ps s) (first_capture-Each o ps s)

retry_after-Each :
    (o : Outside) (body : Text) → Each (λ n. (1 ≤ n) × (n ≤ 3600)) (parse_retry_after o body)
unfolding parse_retry_after
retry_after-Each o body =
    first_capture-Each (λ secs. ltb 0 secs && leb secs 3600) (λ n. (1 ≤ n) × (n ≤ 3600))
      (λ n h. ground arith) o retry_patterns (o.to_lowercase body)

context_limit-Each :
    (o : Outside) (body : Text)
    → Each (λ n. (1024 ≤ n) × (n ≤ 10_000_000)) (parse_context_limit_from_error o body)
unfolding parse_context_limit_from_error
context_limit-Each o body =
    first_capture-Each (λ limit. leb 1024 limit && leb limit 10_000_000)
      (λ n. (1024 ≤ n) × (n ≤ 10_000_000)) (λ n h. ground arith) o context_patterns
      (o.to_lowercase body)

if-Each : (P : ℕ → Type 0) (b : Bool) (n : Option ℕ) → Each P n → Each P (if b then n else none)
if-Each P true n h = h
if-Each P false n h = tt

output-Each :
    (o : Outside) (body : Text)
    → Each (λ n. 1 ≤ n) (parse_available_output_tokens_from_error o body)
unfolding parse_available_output_tokens_from_error
output-Each o body =
    if-Each (λ n. 1 ≤ n) (is_output_cap (o.to_lowercase body))
      (first_capture o (λ tokens. leb 1 tokens) output_patterns (o.to_lowercase body))
      (first_capture-Each (λ tokens. leb 1 tokens) (λ n. 1 ≤ n) (λ n h. ground arith) o
        output_patterns (o.to_lowercase body))

module _ (status : ℕ) (info : ErrorInfo) where
  if-Carries :
      (b : Bool) (k l : ApiErrorKind)
      → Carries info k
      → Carries info l
      → Carries info (if b then k else l)
  if-Carries true k l h i = h
  if-Carries false k l h i = i

  type_kind-Carries : (t : Text) → Carries info (type_kind t info.retry_after_secs)
  type_kind-Carries t = search if-Carries

  body_kind-Carries :
      (v : Option (Text → Option (Option Text))) (lower : Text)
      → Carries info
          (body_kind v lower info.retry_after_secs info.context_limit info.available_output_tokens)
  unfolding json_kind
  body_kind-Carries none lower = tt
  body_kind-Carries (some v) lower = search (if-Carries, type_kind-Carries)

  if-or_body :
      (rest : ApiErrorKind) (b : Bool) (k l : Option ApiErrorKind)
      → Carries info (or_body k rest)
      → Carries info (or_body l rest)
      → Carries info (or_body (if b then k else l) rest)
  if-or_body rest true k l h i = h
  if-or_body rest false k l h i = i

  status_kind-Carries :
      (lower : Text) (rest : ApiErrorKind)
      → Carries info rest
      → Carries info (or_body (status_kind status lower info.retry_after_secs) rest)
  unfolding status_kind
  status_kind-Carries lower rest h = search (if-or_body, if-Carries) depth 12

-- Whatever a service answers, the numbers that are read from its error are sound: a wait is between
-- one second and an hour, a limit of the context is between 1024 and 10,000,000 tokens, the room for
-- the output is at least one token, and the kind of the error carries those same numbers.
pub classify_full-IsSound :
    (o : Outside) (status : ℕ) (body : Text) → IsSound (classify_full o status body)
unfolding classify_full
classify_full-IsSound o status body =
    let info = classify_full o status body in
    record {
      retry = retry_after-Each o body;
      context = context_limit-Each o body;
      output = output-Each o body;
      carries =
          status_kind-Carries status info (o.to_lowercase body)
            (body_kind (o.from_str body) (o.to_lowercase body) info.retry_after_secs
              info.context_limit info.available_output_tokens)
            (body_kind-Carries status info (o.from_str body) (o.to_lowercase body));
    }

-- The statuses that `classify_full` knows.
abbrev pub is_known : ℕ → Bool
is_known status = any (λ s. status == s) (401 ∷ 403 ∷ 402 ∷ 429 ∷ 503 ∷ 529 ∷ 0 ∷ [])

status_kind-unknown :
    (status : ℕ) (lower : Text) (retry : Option ℕ)
    → (status_kind status lower retry ≡ some unknown → ⊥)
      × (is_some (status_kind status lower retry) ≡ is_known status)
unfolding status_kind
status_kind-unknown status lower retry = ground arith

-- For a body that is no JSON the status alone decides: the error is of no known kind, so that it is
-- neither retried nor handed on, exactly when the status is none of 0, 401, 402, 403, 429, 503, 529.
pub classify-plain_body :
    (o : Outside) (status : ℕ) (body : Text)
    → o.from_str body ≡ none
    → (classify o status body ≡ unknown) ↔ (is_known status ≡ false)
unfolding classify classify_full
classify-plain_body o status body h =
    let retry = parse_retry_after o body in
    let lower = o.to_lowercase body in
    let (not_unknown, known) = status_kind-unknown status lower retry in
    elim (Option-cases (status_kind status lower retry)) [
      | inl e ↦ rw (e, h) (λ _. sym known ∙ ap is_some e, λ _. refl)
      | inr (k, e) ↦ rw e (
        λ k≡unknown. absurd (not_unknown (e ∙ ap some k≡unknown)),
        λ u. absurd (true≢false (sym (ap is_some e) ∙ known ∙ u)),
      )
    ]
