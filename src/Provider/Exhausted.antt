-- ===== src/Provider/Exhausted.antt =====
-- The providers of a row (src/providers/fallback.rs) whose credit is known to be exhausted.
use openpaw.Prelude.{
  ℕ, ◌≡◌, refl, suc, true, false, not, List, [], ◌∷◌, ◌++◌, Text, text_eq, text_eq_sound, arith,
  any, retain, ltb, Bool-cases, inl, inr,
}
use openpaw.Provider.{Provider, Reply, ok, err, hung, SharedRetryState, can_retry}
use openpaw.Provider.Classify.{Outside}
use openpaw.Provider.Reliable.{Clock}
use openpaw.Provider.Fallback.{
  rotate, answer, judge, kind_of, verdict, move_on, stop, Verdict, waited,
}

-- The rest of a row, from the marked names and the last error on.
abbrev Go {ℓ κ} : Type ℓ → Type κ → Type (ℓ ⊔ κ)
Go W R = List Text → Text → SharedRetryState → W → Reply R × SharedRetryState × W

any-append :
    (name : Text) (exhausted : List Text) (other : Text)
    → any (text_eq name) exhausted ≡ true
    → any (text_eq name) (exhausted ++ other ∷ []) ≡ true
any-append name [] other h = ground arith
any-append name (t ∷ ts) other h = ground (arith, any-append name ts other)

ltb-suc : (i : ℕ) → ltb 0 (suc i) ≡ true
ltb-suc i = ground arith

module _ {ℓ κ} {W : Type ℓ} {R : Type κ} (o : Outside) (clock : Clock W) (name : Text) where
  -- Two rests of a row that agree once the name is marked.
  abbrev Agree : Go W R → Go W R → Type (ℓ ⊔ κ)
  Agree go go' =
      (exhausted : List Text) (msg : Text) (shared : SharedRetryState) (w : W)
      → any (text_eq name) exhausted ≡ true
      → go exhausted msg shared w ≡ go' exhausted msg shared w

  judge-Agree :
      (go go' : Go W R) (other : Text) (exhausted : List Text) (msg : Text)
      (shared : SharedRetryState) (w : W) (v : Verdict)
      → Agree go go'
      → any (text_eq name) exhausted ≡ true
      → judge o clock go other exhausted msg shared w v
        ≡ judge o clock go' other exhausted msg shared w v
  judge-Agree go go' other exhausted msg shared w (move_on true wait) agree h =
      agree (exhausted ++ other ∷ []) msg shared (waited clock wait w)
        (any-append name exhausted other h)
  judge-Agree go go' other exhausted msg shared w (move_on false wait) agree h =
      agree exhausted msg shared (waited clock wait w) h
  judge-Agree go go' other exhausted msg shared w stop agree h = refl

  answer-Agree :
      (go go' : Go W R) (other : Text) (exhausted : List Text)
      (out : Reply R × SharedRetryState × W)
      → Agree go go'
      → any (text_eq name) exhausted ≡ true
      → answer o clock go other exhausted out ≡ answer o clock go' other exhausted out
  answer-Agree go go' other exhausted (ok resp, shared, w) agree h = refl
  answer-Agree go go' other exhausted (err msg, shared, w) agree h =
      judge-Agree go go' other exhausted msg shared w (verdict (kind_of o msg)) agree h
  answer-Agree go go' other exhausted (hung, shared, w) agree h = refl

  -- Once a provider's credit is known to be exhausted, the rest of the row (any but its first
  -- provider) does what it would do without the providers of that name.
  pub rotate-exhausted :
      (ps : List (Provider W R)) (i j : ℕ) (exhausted : List Text) (last_err : Text)
      (shared : SharedRetryState) (w : W)
      → any (text_eq name) exhausted ≡ true
      → rotate o clock (suc i) ps exhausted last_err shared w
        ≡ rotate o clock
            (suc j)
            (retain (λ p. not (text_eq p.get_name name)) ps)
            exhausted
            last_err
            shared
            w
  unfolding rotate
  rotate-exhausted [] i j exhausted last_err shared w h = refl
  rotate-exhausted (p ∷ ps) i j exhausted last_err shared w h =
      let rest = retain (λ q. not (text_eq q.get_name name)) ps in
      let go = rotate o clock (suc (suc i)) ps in
      let go' = rotate o clock (suc (suc j)) rest in
      let agree : Agree go go' = λ exhausted' msg shared' u h'.
        rotate-exhausted ps (suc i) (suc j) exhausted' msg shared' u h' in
      elim (Bool-cases (text_eq p.get_name name)) [
        | inl y ↦
            rw (y, text_eq_sound p.get_name name y, h)
              (rotate-exhausted ps (suc i) j exhausted last_err shared w h)
        | inr n ↦
            rw (n, ltb-suc i, ltb-suc j)
              (elim (Bool-cases (any (text_eq p.get_name) exhausted)) [
                | inl y ↦ rw y (agree exhausted last_err shared w h)
                | inr m ↦ rw m (elim (Bool-cases (can_retry shared)) [
                  | inl y ↦ rw y (
                      answer-Agree go go' p.get_name exhausted (p.chat_with_retry shared w) agree h)
                  | inr s ↦ rw s refl
                ])
              ])
      ]
