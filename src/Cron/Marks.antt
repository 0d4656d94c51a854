-- ===== src/Cron/Marks.antt =====
-- Which places the loop of a part marks (src/cron.rs, `parse_cron_field`).
use openpaw.Prelude.{
  ℕ, zero, suc, ◌+◌, ◌-◌, ◌%◌, ◌≤◌, ◌<◌, ◌≡◌, refl, Bool, true, not, ◌&&◌, ◌||◌, List, [], ◌∷◌,
  ◌==◌, leb, ltb, length, arith, Bool-cases, inl, inr, dec_le, ◌∙◌,
}
use native.Mathlib.Nat.{mod-eq-sub-mod, mod-eq_of_lt, zero-mod}
use openpaw.Cron.{ok, hang}
use openpaw.Cron.Field.{Range, set, at, normalized, Seen, see, mark}

-- The values that a range stands for.
abbrev pub covers : ℕ → ℕ → ℕ → ℕ → Bool
covers start end step v = leb start v && leb v end && ((v - start) % step == 0)

-- The places that a range marks: 7 is 0 where Sunday may be written 7.
abbrev pub hits_from : Bool → ℕ → ℕ → ℕ → ℕ → Bool
hits_from allow_sunday_7 start end step i =
    (covers start end step i && not (allow_sunday_7 && i == 7))
    || (allow_sunday_7 && i == 0 && covers start end step 7)

abbrev pub hits : Bool → ℕ → Range → Bool
hits allow_sunday_7 i r = hits_from allow_sunday_7 r.start r.end r.step i

covers-step :
    (start end step v : ℕ)
    → 1 ≤ step
    → start ≤ end
    → covers start end step v ≡ ((v == start) || covers (start + step) end step v)
covers-step start end step v h i = elim (Bool-cases (ltb v (start + step))) [
  | inl e ↦ ground (arith, zero-mod step, mod-eq_of_lt {n = v - start} {m = step})
  | inr e ↦ ground (arith, mod-eq-sub-mod {n = v - start} {m = step})
]

pub length-set : (i : ℕ) (out : List Bool) → length (set i out) ≡ length out
length-set i [] = refl
length-set zero (b ∷ out) = refl
length-set (suc i) (b ∷ out) = omega (arith, length-set i out)

at-set :
    (i j : ℕ) (out : List Bool) → at i (set j out) ≡ (at i out || ((i == j) && ltb j (length out)))
at-set i j [] = ground arith
at-set zero zero (b ∷ out) = ground arith
at-set zero (suc j) (b ∷ out) = ground arith
at-set (suc i) zero (b ∷ out) = ground arith
at-set (suc i) (suc j) (b ∷ out) = ground (arith, at-set i j out)

at-see :
    (allow_sunday_7 : Bool) (min current i : ℕ) (s : Seen)
    → at i (see allow_sunday_7 min current s).out ≡ (
        at i s.out
        || ((i == normalized allow_sunday_7 current) && leb min i && ltb i (length s.out)))
at-see allow_sunday_7 min current i s =
    ground (arith, at-set i (normalized allow_sunday_7 current) s.out)

length-see :
    (allow_sunday_7 : Bool) (min current : ℕ) (s : Seen)
    → length (see allow_sunday_7 min current s).out ≡ length s.out
length-see allow_sunday_7 min current s =
    ground (arith, length-set (normalized allow_sunday_7 current) s.out)

-- What the loop over the values of a range has done when it returns.
pub record Marked (allow_sunday_7 : Bool) (min start end step : ℕ) (s s' : Seen) : Type 0 where
  pub size : length s'.out ≡ length s.out
  pub places :
      (i : ℕ)
      → at i s'.out ≡ (
          at i s.out
          || (hits_from allow_sunday_7 start end step i && leb min i && ltb i (length s.out)))
  pub kept : s.saw_value ≡ true → s'.saw_value ≡ true
  pub seen :
      start ≤ end
      → min ≤ normalized allow_sunday_7 start
      → normalized allow_sunday_7 start < length s.out
      → s'.saw_value ≡ true

none_Marked :
    (allow_sunday_7 : Bool) (min step end start : ℕ) (s : Seen)
    → end < start
    → Marked allow_sunday_7 min start end step s s
none_Marked allow_sunday_7 min step end start s h = record {
  size = refl;
  places = λ i. ground arith;
  kept = λ e. e;
  seen = λ e g k. absurd (omega arith);
}

last_Marked :
    (allow_sunday_7 : Bool) (min step end start : ℕ) (s : Seen)
    → 1 ≤ step
    → start ≤ end
    → end < start + step
    → Marked allow_sunday_7 min start end step s (see allow_sunday_7 min start s)
last_Marked allow_sunday_7 min step end start s h i j = record {
  size = length-see allow_sunday_7 min start s;
  places = λ k. ground (
    arith,
    at-see allow_sunday_7 min start k s,
    covers-step start end step k h i,
    covers-step start end step 7 h i,
  );
  kept = λ e. ground arith;
  seen = λ e g k. ground arith;
}

more_Marked :
    (allow_sunday_7 : Bool) (min step end start : ℕ) (s s' : Seen)
    → 1 ≤ step
    → start ≤ end
    → Marked allow_sunday_7 min (start + step) end step (see allow_sunday_7 min start s) s'
    → Marked allow_sunday_7 min start end step s s'
more_Marked allow_sunday_7 min step end start s s' h i m = record {
  size = omega (arith, m.size, length-see allow_sunday_7 min start s);
  places = λ k. ground (
    arith,
    m.places k,
    at-see allow_sunday_7 min start k s,
    length-see allow_sunday_7 min start s,
    covers-step start end step k h i,
    covers-step start end step 7 h i,
  );
  kept = λ e. ground (arith, m.kept);
  seen = λ e g k. ground (arith, m.kept);
}

-- One turn of the loop.
mark-next :
    (fuel : ℕ) (allow_sunday_7 : Bool) (min step end start : ℕ) (s : Seen)
    → start ≤ end
    → start + step ≤ 255
    → mark (suc fuel) allow_sunday_7 min step end start s
      ≡ mark fuel allow_sunday_7 min step end (start + step) (see allow_sunday_7 min start s)
unfolding mark
mark-next fuel allow_sunday_7 min step end start s h i = ground arith

mark-last :
    (fuel : ℕ) (allow_sunday_7 : Bool) (min step end start : ℕ) (s : Seen)
    → start ≤ end
    → 255 < start + step
    → mark (suc fuel) allow_sunday_7 min step end start s ≡ ok (see allow_sunday_7 min start s)
unfolding mark
mark-last fuel allow_sunday_7 min step end start s h i = ground arith

mark-none :
    (fuel : ℕ) (allow_sunday_7 : Bool) (min step end start : ℕ) (s : Seen)
    → end < start
    → mark (suc fuel) allow_sunday_7 min step end start s ≡ ok s
unfolding mark
mark-none fuel allow_sunday_7 min step end start s h = ground arith

-- The loop returns, for every step but 0, and marks exactly the values of the range.
pub mark-Marked :
    (fuel : ℕ) (allow_sunday_7 : Bool) (min step end start : ℕ) (s : Seen)
    → 1 ≤ step
    → end ≤ 255
    → suc end - start < fuel
    → (s' : Seen) × (mark fuel allow_sunday_7 min step end start s ≡ ok s')
      × Marked allow_sunday_7 min start end step s s'
mark-Marked zero allow_sunday_7 min step end start s h i f = absurd (omega arith)
mark-Marked (suc fuel) allow_sunday_7 min step end start s h i f =
    let now = see allow_sunday_7 min start s in
    elim (dec_le start end) [
      | yes e ↦ elim (dec_le (start + step) 255) [
        | yes g ↦
            let (s', r, m) =
              mark-Marked fuel allow_sunday_7 min step end (start + step) now h i (omega arith) in
            (
              s',
              mark-next fuel allow_sunday_7 min step end start s e g ∙ r,
              more_Marked allow_sunday_7 min step end start s s' h e m,
            )
        | no g ↦ (
          now,
          mark-last fuel allow_sunday_7 min step end start s e (omega arith),
          last_Marked allow_sunday_7 min step end start s h e (omega arith),
        )
      ]
      | no e ↦ (
        s,
        mark-none fuel allow_sunday_7 min step end start s (omega arith),
        none_Marked allow_sunday_7 min step end start s (omega arith),
      )
    ]

-- With the step 0 the loop never returns, whatever the fuel.
pub mark-hang :
    (fuel : ℕ) (allow_sunday_7 : Bool) (min end start : ℕ) (s : Seen)
    → start ≤ end
    → end ≤ 255
    → mark fuel allow_sunday_7 min 0 end start s ≡ hang
unfolding mark
mark-hang zero allow_sunday_7 min end start s h i = refl
mark-hang (suc fuel) allow_sunday_7 min end start s h i =
    ground (arith, mark-hang fuel allow_sunday_7 min end start (see allow_sunday_7 min start s) h i)
