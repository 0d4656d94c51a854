-- ===== src/Provider/Classify.antt =====
-- The classification of an error by its status and its text (src/providers/error_classify.rs), with
-- the numbers that are read from it (src/token_estimator.rs).
use openpaw.Prelude.{
  ℕ, Bool, ◌&&◌, ◌||◌, Option, none, some, List, [], ◌∷◌, Text, codes, ◌==◌, text_eq, leb, ltb,
  if◌then◌else◌, any, String,
}
use openpaw.Scan.{contains, parse_u64, parse_u16, split_whitespace, trim_end_matches}
use openpaw.Provider.{
  ApiErrorKind, rate_limit, quota, auth, model_down, network, context_overflow, credit_exhausted,
  unknown, ErrorInfo,
}

-- What the functions take from outside: `str::to_lowercase` (the tables of Unicode), the first group
-- that a pattern of the crate regex captures in a text, and serde_json: `none` for a text that is no
-- JSON, else what `pointer` finds at a path and `as_str` makes of it.
pub record Outside : Type 0 where
  pub to_lowercase : Text → Text
  pub captures : Text → Text → Option Text
  pub from_str : Text → Option (Text → Option (Option Text))

-- The first whitespace part that is a number from 100 to 599, a `:` at its end left out; 0 if none.
abbrev status_in : List Text → ℕ
status_in [] = 0
status_in (part ∷ rest) =
    let later = status_in rest in
    elim (parse_u16 (trim_end_matches b':' part)) [
      | none ↦ later
      | some n ↦ if leb 100 n && leb n 599 then n else later
    ]

unfoldable pub extract_status_from_message : Text → ℕ
extract_status_from_message msg = status_in (split_whitespace msg)

-- The text holds one of the words.
abbrev pub mentions : List String → Text → Bool
mentions words s = any (λ w. contains (codes w) s) words

abbrev pub retry_patterns : List String
retry_patterns =
    "retry[-_ ]after[:\\s]+(\\d+)" ∷ "try again in (\\d+)\\s*(?:s|sec|second)"
    ∷ "retry in (\\d+)\\s*(?:s|sec|second)" ∷ "wait (\\d+)\\s*(?:s|sec|second)"
    ∷ "available in (\\d+)\\s*(?:s|sec|second)" ∷ []

abbrev pub context_patterns : List String
context_patterns =
    "context[_\\s-]*(?:length|size|window)[_\\s-]*(?:exceeded)?[:\\s]+(\\d{4,})"
    ∷ "(?:max(?:imum)?|limit)\\s*(?:context\\s*)?(?:length|size|window)?\\s*(?:is|of|:)?\\s*(\\d{4,})"
    ∷ "context\\s*(?:length|size|window)\\s*(?:is|of|:)?\\s*(\\d{4,})"
    ∷ "(\\d{4,})\\s*(?:token)?\\s*(?:context|limit)" ∷ ">\\s*(\\d{4,})\\s*(?:max|limit|token)"
    ∷ "(\\d{4,})\\s*(?:max(?:imum)?)\\b" ∷ []

abbrev pub output_patterns : List String
output_patterns =
    "available_tokens[:\\s]+(\\d+)" ∷ "available\\s+tokens[:\\s]+(\\d+)" ∷ "=\\s*(\\d+)\\s*$" ∷ []

-- The text is about the room for the output.
abbrev pub is_output_cap : Text → Bool
is_output_cap lower =
    mentions ("max_tokens" ∷ []) lower
    && mentions ("available_tokens" ∷ "available tokens" ∷ []) lower

abbrev pub or_later : (ℕ → Bool) → Option ℕ → Option ℕ → Option ℕ
or_later test none later = later
or_later test (some n) later = if test n then some n else later

module _ (o : Outside) where
  -- The number that the first group of a pattern writes.
  abbrev pub captured : Text → Text → Option ℕ
  captured pattern s = elim (o.captures pattern s) [ none ↦ none | some digits ↦ parse_u64 digits ]

  -- The loop over patterns: the first that captures a number which passes the test.
  abbrev pub first_capture : (ℕ → Bool) → List String → Text → Option ℕ
  first_capture test [] s = none
  first_capture test (p ∷ ps) s = or_later test (captured (codes p) s) (first_capture test ps s)

  unfoldable pub parse_retry_after : Text → Option ℕ
  parse_retry_after body =
      first_capture (λ secs. ltb 0 secs && leb secs 3600) retry_patterns (o.to_lowercase body)

  unfoldable pub parse_context_limit_from_error : Text → Option ℕ
  parse_context_limit_from_error error_msg =
      first_capture (λ limit. leb 1024 limit && leb limit 10_000_000) context_patterns
        (o.to_lowercase error_msg)

  unfoldable pub parse_available_output_tokens_from_error : Text → Option ℕ
  parse_available_output_tokens_from_error error_msg =
      let lower = o.to_lowercase error_msg in
      if is_output_cap lower
      then first_capture (λ tokens. leb 1 tokens) output_patterns lower
      else none

-- The `match` on the status; `none` goes on to the body.
unfoldable pub status_kind : ℕ → Text → Option ℕ → Option ApiErrorKind
status_kind status lower retry_after_secs =
    if status == 401 || status == 403
    then some auth
    else if status == 402
    then some credit_exhausted
    else if status == 429
    then some (
        if mentions ("quota" ∷ "billing" ∷ "credit" ∷ "freeusagelimiterror" ∷ []) lower
        then quota
        else rate_limit retry_after_secs)
    else if status == 503 || status == 529
    then some model_down
    else if status == 0
    then some network
    else none

-- `pointer(a).or_else(|| pointer(b)).and_then(as_str).unwrap_or("")`.
abbrev pub str_at : (Text → Option (Option Text)) → String → String → Text
str_at v a b = elim (v (codes a)) [
  | some (some s) ↦ s
  | some none ↦ []
  | none ↦ elim (v (codes b)) [ some (some s) ↦ s | some none ↦ [] | none ↦ [] ]
]

abbrev pub is_one_of : List String → Text → Bool
is_one_of words s = any (λ w. text_eq s (codes w)) words

-- The last `match`, on the error's type.
abbrev pub type_kind : Text → Option ℕ → ApiErrorKind
type_kind err_type retry_after_secs =
    if is_one_of ("rate_limit_exceeded" ∷ "rate_limit" ∷ []) err_type
    then rate_limit retry_after_secs
    else if is_one_of ("insufficient_quota" ∷ "billing_not_active" ∷ []) err_type
    then quota
    else if is_one_of ("authentication_error" ∷ "permission_error" ∷ []) err_type
    then auth
    else if is_one_of ("model_not_found" ∷ "model_unavailable" ∷ "overloaded_error" ∷ []) err_type
    then model_down
    else unknown

-- The branch for a body in JSON.
unfoldable pub json_kind :
    (Text → Option (Option Text)) → Text → Option ℕ → Option ℕ → Option ℕ → ApiErrorKind
json_kind v lower retry_after_secs context_limit available_output_tokens =
    let err_type = str_at v "/error/type" "/error/code" in
    let nested_error = str_at v "/error/error/type" "/error/message" in
    if mentions
        ("context_length_exceeded" ∷ "context window" ∷ "maximum context" ∷ "input is too long"
          ∷ "reduce the length" ∷ [])
        lower
      || mentions ("context_length" ∷ []) err_type
      || mentions ("context_length" ∷ []) nested_error
    then context_overflow context_limit available_output_tokens
    else if mentions
          ("insufficient_balance" ∷ "payment required" ∷ "billing" ∷ "credit balance"
            ∷ "ran out of credits" ∷ [])
          lower
        || is_one_of ("insufficient_quota" ∷ "billing_not_active" ∷ []) err_type
    then credit_exhausted
    else type_kind err_type retry_after_secs

abbrev pub body_kind :
    Option (Text → Option (Option Text)) → Text → Option ℕ → Option ℕ → Option ℕ → ApiErrorKind
body_kind none lower retry context output = unknown
body_kind (some v) lower retry context output = json_kind v lower retry context output

abbrev pub or_body : Option ApiErrorKind → ApiErrorKind → ApiErrorKind
or_body none k = k
or_body (some k) _ = k

module _ (o : Outside) where
  unfoldable pub classify_full : ℕ → Text → ErrorInfo
  classify_full status body =
      let lower = o.to_lowercase body in
      let retry = parse_retry_after o body in
      let context = parse_context_limit_from_error o body in
      let output = parse_available_output_tokens_from_error o body in
      record {
        kind =
            or_body (status_kind status lower retry)
              (body_kind (o.from_str body) lower retry context output);
        retry_after_secs = retry;
        context_limit = context;
        available_output_tokens = output;
      }

  unfoldable pub classify : ℕ → Text → ApiErrorKind
  classify status body = (classify_full status body).kind
