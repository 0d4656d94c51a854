-- ===== src/Provider/Rotation.antt =====
-- How many calls of services a row of providers comes to (src/providers/fallback.rs).
use openpaw.Prelude.{
  All, any, text_eq, codes, ltb, ◌&&◌, List, [], ◌∷◌, length, ℕ, ◌+◌, ◌^◌, ◌≤◌, ◌<◌, suc, ◌≡◌, refl,
  ◌≢◌, arith, Bool-cases, inl, inr, ◌∙◌, Text, not,
}
use openpaw.Provider.{Provider, Reply, ok, err, hung, SharedRetryState, can_retry, new_state}
use openpaw.Provider.Classify.{Outside}
use openpaw.Provider.Fallback.{
  rotate, waited, answer, kind_of, verdict, move_on, Verdict, stop, judge, mark, chat,
  chat_with_retry as fallback_chat,
}
use openpaw.Provider.Reliable.{Clock}
use openpaw.Provider.Spent.{waited-free, Spent, IsThrifty, more-Spent, error-Spent}

module _ {ℓ κ} {W : Type ℓ} {R : Type κ} (calls : W → ℕ) where
  abbrev pub IsThriftyRow : List (Provider W R) → Type (ℓ ⊔ κ)
  IsThriftyRow = All (IsThrifty calls)

  module _ (o : Outside) (clock : Clock W)
      (free : (ms : ℕ) (w : W) → calls (clock.sleep ms w) ≡ calls w) where
    judge-Spent :
        (n : ℕ) (go : List Text → Text → SharedRetryState → W → Reply R × SharedRetryState × W)
        (name : Text) (exhausted : List Text) (msg : Text) (shared shared' : SharedRetryState)
        (w v : W) (verdict : Verdict)
        → Spent {R = R} calls 1 shared w (err msg, shared', v)
        → ((marked : List Text) (u : W) → Spent calls n shared' u (go marked msg shared' u))
        → Spent calls (suc n) shared w (judge o clock go name exhausted msg shared' v verdict)
    judge-Spent n go name exhausted msg shared shared' w v (move_on is_exhausted wait) s rest =
        let same = waited-free calls clock free wait v in
        let t = rest (mark is_exhausted name exhausted) (waited clock wait v) in
        record {
          returned = t.returned;
          limit = t.limit ∙ s.limit;
          counted = omega (arith, t.counted, s.counted);
          within = omega (arith, t.within, s.within, s.limit);
          paid = omega (arith, t.paid, s.paid, same);
        }
    judge-Spent n go name exhausted msg shared shared' w v stop s rest =
        more-Spent calls (suc n) shared w (err msg, shared', v) 1 (omega arith) s

    answer-Spent :
        (n : ℕ) (go : List Text → Text → SharedRetryState → W → Reply R × SharedRetryState × W)
        (name : Text) (exhausted : List Text) (shared : SharedRetryState) (w : W)
        (out : Reply R × SharedRetryState × W)
        → Spent calls 1 shared w out
        → ((marked : List Text) (msg : Text) (later : SharedRetryState) (u : W)
            → later.max_total ≡ shared.max_total
            → Spent calls n later u (go marked msg later u))
        → Spent calls (suc n) shared w (answer o clock go name exhausted out)
    answer-Spent n go name exhausted shared w (ok resp, shared', v) s rest =
        more-Spent calls (suc n) shared w (ok resp, shared', v) 1 (omega arith) s
    answer-Spent n go name exhausted shared w (err msg, shared', v) s rest =
        judge-Spent n go name exhausted msg shared shared' w v (verdict (kind_of o msg)) s
          (λ marked u. rest marked msg shared' u s.limit)
    answer-Spent n go name exhausted shared w (hung, shared', v) s rest = absurd (s.returned refl)

    rotate-Spent :
        (i : ℕ) (ps : List (Provider W R)) (exhausted : List Text) (last_err : Text)
        (shared : SharedRetryState) (w : W)
        → shared.max_total < 2 ^ 32
        → IsThriftyRow ps
        → Spent calls (length ps) shared w (rotate o clock i ps exhausted last_err shared w)
    unfolding rotate
    rotate-Spent i [] exhausted last_err shared w small thrifty =
        error-Spent calls 0 last_err shared w w refl
    rotate-Spent i (p ∷ ps) exhausted last_err shared w small thrifty =
        elim (Bool-cases (any (text_eq p.get_name) exhausted)) [
          | inl y ↦ rw y (
              more-Spent calls (suc (length ps)) shared w
                (rotate o clock (suc i) ps exhausted last_err shared w) (length ps) (omega arith)
                (rotate-Spent (suc i) ps exhausted last_err shared w small thrifty.1))
          | inr n ↦ rw n (elim (Bool-cases (not (can_retry shared) && ltb 0 i)) [
            | inl y ↦ rw y (error-Spent calls (suc (length ps)) last_err shared w w refl)
            | inr n' ↦ rw n' (
                answer-Spent (length ps) (rotate o clock (suc i) ps) p.get_name exhausted shared w
                  (p.chat_with_retry shared w) (thrifty.0 shared w small)
                  (λ marked msg later u same.
                    rotate-Spent (suc i) ps marked msg later u (rw same small) thrifty.1))
          ])
        ]

    -- A request over a row of thrifty providers: the retries of all of them count together, so
    -- that it ends after at most three calls of the services more than there are providers.
    pub chat-calls :
        (ps : List (Provider W R)) (w : W)
        → IsThriftyRow ps
        → ((chat o clock ps w).0 ≢ hung) × (calls (chat o clock ps w).1 ≤ calls w + length ps + 3)
    unfolding chat fallback_chat new_state
    chat-calls ps w thrifty =
        let s =
          rotate-Spent 0 ps [] (codes "No providers configured for fallback") (new_state 3) w
            (omega arith) thrifty in
        (s.returned, omega (arith, s.paid, s.within))
