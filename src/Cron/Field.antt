-- ===== src/Cron/Field.antt =====
-- One field of a cron expression (src/cron.rs, `parse_cron_field`).
use openpaw.Prelude.{
  ℕ, zero, suc, ◌+◌, ◌-◌, Bool, true, false, ◌&&◌, Option, none, some, List, [], ◌∷◌, Text, codes,
  text_keyed, ◌=?◌, ◌==◌, leb, ltb, if◌then◌else◌, length, replicate,
}
use openpaw.Cron.{Run, ok, err, hang, bind, need}
use openpaw.Scan.{split, split_once, parse_u8}

-- A part of a field: the values from `start` to `end`, `step` apart.
pub record Range : Type 0 where
  pub start : ℕ
  pub end : ℕ
  pub step : ℕ

-- `out[i] = true`, of an index in range.
abbrev pub set : ℕ → List Bool → List Bool
set i [] = []
set zero (b ∷ bs) = true ∷ bs
set (suc i) (b ∷ bs) = b ∷ set i bs

-- `out[i]`, of an index in range.
abbrev pub at : ℕ → List Bool → Bool
at i [] = false
at zero (b ∷ bs) = b
at (suc i) (b ∷ bs) = at i bs

-- The values from `i` on, `n` of them.
abbrev pub set_from : ℕ → ℕ → List Bool → List Bool
set_from i zero out = out
set_from i (suc n) out = set_from (suc i) n (set i out)

-- Sunday may be written 7.
abbrev pub normalized : Bool → ℕ → ℕ
normalized allow_sunday_7 current = if allow_sunday_7 && current == 7 then 0 else current

abbrev range_of : ℕ → Option (ℕ × ℕ) → Option Range
range_of step none = none
range_of step (some (start, end)) = some (record { start = start; end = end; step = step })

abbrev both : Option ℕ → Option ℕ → Option (ℕ × ℕ)
both none b = none
both (some a) none = none
both (some a) (some b) = some (a, b)

abbrev bounds_of : Text → Option (Text × Text) → Option (ℕ × ℕ)
bounds_of s (some (start, end)) = both (parse_u8 start) (parse_u8 end)
bounds_of s none = both (parse_u8 s) (parse_u8 s)

abbrev bounds : ℕ → ℕ → Text → Option (ℕ × ℕ)
bounds min max s = if s =? codes "*" then some (min, max) else bounds_of s (split_once b'-' s)

abbrev with_step : ℕ → ℕ → Text → Option ℕ → Option Range
with_step min max s none = none
with_step min max s (some step) = range_of step (bounds min max s)

abbrev pub stepped : ℕ → ℕ → Text → Option (Text × Text) → Option Range
stepped min max s none = with_step min max s (some 1)
stepped min max s (some (before, after)) = with_step min max before (parse_u8 after)

abbrev pub in_range : Bool → ℕ → ℕ → Range → Bool
in_range allow_sunday_7 min max r =
    leb min r.start && leb r.end (if allow_sunday_7 then 7 else max) && leb r.start r.end

abbrev pub checked : Bool → ℕ → ℕ → Option Range → Option Range
checked allow_sunday_7 min max none = none
checked allow_sunday_7 min max (some r) = if in_range allow_sunday_7 min max r then some r else none

-- What a part says, and whether it is in range.
unfoldable pub parse_part : ℕ → ℕ → Bool → Text → Option Range
parse_part min max allow_sunday_7 part =
    checked allow_sunday_7 min max (stepped min max part (split_once b'/' part))

-- `out` and `saw_value`.
pub record Seen : Type 0 where
  pub out : List Bool
  pub saw_value : Bool

abbrev pub see : Bool → ℕ → ℕ → Seen → Seen
see allow_sunday_7 min current s =
    let i = normalized allow_sunday_7 current in
    if leb min i && ltb i (length s.out) then record { out = set i s.out; saw_value = true } else s

-- The loop over the values of a part, on fuel. A u8 that would overflow ends it.
unfoldable pub mark : ℕ → Bool → ℕ → ℕ → ℕ → ℕ → Seen → Run Seen
mark zero allow_sunday_7 min step end current s = hang
mark (suc fuel) allow_sunday_7 min step end current s = elim (leb current end) [
  | false ↦ ok s
  | true ↦ elim (leb (current + step) 255) [
    | false ↦ ok (see allow_sunday_7 min current s)
    | true ↦
        mark fuel allow_sunday_7 min step end (current + step) (see allow_sunday_7 min current s)
  ]
]

-- The loop over the parts.
unfoldable pub mark_parts : ℕ → ℕ → Bool → List Text → Seen → Run Seen
mark_parts min max allow_sunday_7 [] s = ok s
mark_parts min max allow_sunday_7 (part ∷ parts) s =
    bind (need (parse_part min max allow_sunday_7 part)) (λ r.
      bind (mark 257 allow_sunday_7 min r.step r.end r.start s)
        (λ s'. mark_parts min max allow_sunday_7 parts s'))

abbrev pub seen_all : Seen → Run (Bool × List Bool)
seen_all s = if s.saw_value then ok (false, s.out) else err

-- The Boolean says that the field is `*`; `size` is the length of `out`.
unfoldable pub parse_cron_field : Text → ℕ → ℕ → Bool → ℕ → Run (Bool × List Bool)
parse_cron_field field min max allow_sunday_7 size =
    let cleared = replicate size false in
    if field =? codes "*"
    then ok (true, set_from min (suc max - min) cleared)
    else bind
        (mark_parts min max allow_sunday_7 (split b',' field)
          (record { out = cleared; saw_value = false }))
        seen_all
