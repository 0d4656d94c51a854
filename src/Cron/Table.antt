-- ===== src/Cron/Table.antt =====
-- What a field of a cron expression stands for (src/cron.rs, `parse_cron_field`).
use openpaw.Prelude.{
  ℕ, zero, suc, ◌-◌, ◌≤◌, ◌<◌, ◌≡◌, refl, Bool, true, false, ◌&&◌, ◌||◌, Option, none, some, List,
  [], ◌∷◌, leb, ltb, length, replicate, arith, any, all, ◌∙◌, Text, codes, text_keyed, ◌=?◌,
}
use openpaw.Cron.{ok, hang, bind}
use openpaw.Scan.{split, split_once}
use openpaw.Cron.Field.{
  Range, at, normalized, Seen, mark, mark_parts, parse_part, parse_cron_field, seen_all, stepped,
  checked, in_range,
}
use openpaw.Cron.Marks.{hits, mark-Marked, mark-hang}

abbrev cons_range : Option Range → Option (List Range) → Option (List Range)
cons_range none rs = none
cons_range (some r) none = none
cons_range (some r) (some rs) = some (r ∷ rs)

-- The ranges that the parts of a field say, if each part says one.
abbrev pub ranges_of : ℕ → ℕ → Bool → List Text → Option (List Range)
ranges_of min max allow_sunday_7 [] = some []
ranges_of min max allow_sunday_7 (part ∷ parts) =
    cons_range (parse_part min max allow_sunday_7 part) (ranges_of min max allow_sunday_7 parts)

-- Every part says how far its values are apart, and not by 0.
abbrev pub steps : List Range → Bool
steps = all (λ r. leb 1 (Range.step r))

-- A field as the callers have it: its places fit the table, and Sunday may be written 7 where the
-- values are 0 to 6.
abbrev pub IsField : ℕ → ℕ → Bool → ℕ → Type 0
IsField min max true size = (min ≡ 0) × (max ≡ 6) × (size ≡ 7)
IsField min max false size = (min ≤ max) × (max < size) × (max ≤ 255)

parse_part_lem :
    (min max : ℕ) (allow_sunday_7 : Bool) (part : Text) (r : Range)
    → parse_part min max allow_sunday_7 part ≡ some r
    → in_range allow_sunday_7 min max r ≡ true
unfolding parse_part
parse_part_lem min max allow_sunday_7 part r h =
    by_range (stepped min max part (split_once b'/' part)) h
  where
    by_range :
        (o : Option Range)
        → checked allow_sunday_7 min max o ≡ some r
        → in_range allow_sunday_7 min max r ≡ true
    by_range none e = absurd (ground arith)
    by_range (some q) e = ground (arith)

at-replicate : (i n : ℕ) → at i (replicate n false) ≡ false
at-replicate i zero = refl
at-replicate zero (suc n) = refl
at-replicate (suc i) (suc n) = at-replicate i n

length-replicate : (n : ℕ) → length (replicate n false) ≡ n
length-replicate zero = refl
length-replicate (suc n) = omega (arith, length-replicate n)

-- What the loop over the parts has marked.
record AllMarked (allow_sunday_7 : Bool) (rs : List Range) (s s' : Seen) : Type 0 where
  size : length s'.out ≡ length s.out
  places :
      (i : ℕ)
      → at i s'.out ≡ (at i s.out || (any (hits allow_sunday_7 i) rs && ltb i (length s.out)))
  seen : (s.saw_value || ltb 0 (length rs)) ≡ true → s'.saw_value ≡ true

cons_range_inv :
    (a : Option Range) (b : Option (List Range)) (rs : List Range)
    → cons_range a b ≡ some rs
    → (r : Range) × (rest : List Range) × (a ≡ some r) × (b ≡ some rest) × (rs ≡ r ∷ rest)
cons_range_inv none b rs h = absurd (ground arith)
cons_range_inv (some r) none rs h = absurd (ground arith)
cons_range_inv (some r) (some rest) rs h = (r, rest, refl, refl, ground arith)

-- A range that a part says starts in the table and ends within a byte.
range_fits :
    (min max size : ℕ) (allow_sunday_7 : Bool) (r : Range)
    → IsField min max allow_sunday_7 size
    → in_range allow_sunday_7 min max r ≡ true
    → (r.end ≤ 255)
      × (suc r.end - r.start < 257)
      × ((i : ℕ) → hits allow_sunday_7 i r ≡ true → min ≤ i)
      × (r.start ≤ r.end)
      × (min ≤ normalized allow_sunday_7 r.start)
      × (normalized allow_sunday_7 r.start < size)
range_fits min max size true r f h =
    (ground arith, ground arith, λ i e. ground arith, ground arith, ground arith, ground arith)
range_fits min max size false r f h =
    (ground arith, ground arith, λ i e. ground arith, ground arith, ground arith, ground arith)

mark_parts-cons :
    (min max : ℕ) (allow_sunday_7 : Bool) (part : Text) (parts : List Text) (s s1 : Seen)
    (r : Range)
    → parse_part min max allow_sunday_7 part ≡ some r
    → mark 257 allow_sunday_7 min r.step r.end r.start s ≡ ok s1
    → mark_parts min max allow_sunday_7 (part ∷ parts) s
      ≡ mark_parts min max allow_sunday_7 parts s1
unfolding mark_parts
mark_parts-cons min max allow_sunday_7 part parts s s1 r h i = rw (h, i) refl

mark_parts-AllMarked :
    (min max : ℕ) (allow_sunday_7 : Bool) (parts : List Text) (rs : List Range) (s : Seen)
    → IsField min max allow_sunday_7 (length s.out)
    → ranges_of min max allow_sunday_7 parts ≡ some rs
    → steps rs ≡ true
    → (s' : Seen) × (mark_parts min max allow_sunday_7 parts s ≡ ok s')
      × AllMarked allow_sunday_7 rs s s'
unfolding mark_parts
mark_parts-AllMarked min max allow_sunday_7 [] rs s f h i =
    (s, refl, record { size = refl; places = λ k. ground (arith); seen = λ e. ground (arith) })
mark_parts-AllMarked min max allow_sunday_7 (part ∷ parts) rs s f h i =
    let (r, rest, part_r, parts_rest, all_rs) = cons_range_inv _ _ rs h in
    let (byte, fuel, low, order, above, below) =
      range_fits min max (length s.out) allow_sunday_7 r f
        (parse_part_lem min max allow_sunday_7 part r part_r) in
    let (s1, marked, m) =
      mark-Marked 257 allow_sunday_7 min r.step r.end r.start s (ground (arith, all_rs, i)) byte
        fuel in
    let (s2, others, a) =
      mark_parts-AllMarked min max allow_sunday_7 parts rest s1 (rw m.size f) parts_rest
        (ground (arith, all_rs, i)) in
    (
      s2,
      mark_parts-cons min max allow_sunday_7 part parts s s1 r part_r marked ∙ others,
      record {
        size = omega (arith, a.size, m.size);
        places = λ k. ground (arith, all_rs, a.places k, m.places k, m.size, low k);
        seen = λ e. a.seen (ground (arith, m.seen order above below));
      },
    )

length-ranges_of :
    (min max : ℕ) (allow_sunday_7 : Bool) (parts : List Text) (rs : List Range)
    → ranges_of min max allow_sunday_7 parts ≡ some rs
    → length rs ≡ length parts
length-ranges_of min max allow_sunday_7 [] rs h = ground arith
length-ranges_of min max allow_sunday_7 (part ∷ parts) rs h =
    let (r, rest, _, e, all_rs) = cons_range_inv _ _ rs h in
    ground (arith, all_rs, length-ranges_of min max allow_sunday_7 parts rest e)

length-split : (sep : ℕ) (s : Text) → 1 ≤ length (split sep s)
unfolding split
length-split sep [] = omega arith
length-split sep (c ∷ s) = ground (arith, length-split sep s)

-- A field other than `*`, all of whose parts say a range in bounds and none of which steps by 0, is read
-- in full: it stands for exactly the values that some part covers (7 for 0 in the day of the week).
pub parse_cron_field-ranges :
    (field : Text) (min max : ℕ) (allow_sunday_7 : Bool) (size : ℕ) (rs : List Range)
    → IsField min max allow_sunday_7 size
    → (field =? codes "*") ≡ false
    → ranges_of min max allow_sunday_7 (split b',' field) ≡ some rs
    → steps rs ≡ true
    → (out : List Bool) × (parse_cron_field field min max allow_sunday_7 size ≡ ok (false, out))
      × ((i : ℕ) → i < size → at i out ≡ any (hits allow_sunday_7 i) rs)
unfolding parse_cron_field
parse_cron_field-ranges field min max allow_sunday_7 size rs f h i j =
    let start : Seen = record { out = replicate size false; saw_value = false } in
    let (s, parts, a) =
      mark_parts-AllMarked min max allow_sunday_7 (split b',' field) rs start
        (rw (length-replicate size) f) i j in
    let saw = a.seen (
      ground (
        arith,
        length-ranges_of min max allow_sunday_7 (split b',' field) rs i,
        length-split b',' field,
      )) in
    (
      s.out,
      ground (arith, h, parts, saw),
      λ k lt. ground (arith, a.places k, at-replicate k size, length-replicate size),
    )

mark_parts-hang :
    (min max : ℕ) (allow_sunday_7 : Bool) (part : Text) (parts : List Text) (s : Seen) (r : Range)
    → parse_part min max allow_sunday_7 part ≡ some r
    → mark 257 allow_sunday_7 min r.step r.end r.start s ≡ hang
    → bind (mark_parts min max allow_sunday_7 (part ∷ parts) s) seen_all ≡ hang
unfolding mark_parts
mark_parts-hang min max allow_sunday_7 part parts s r h i = rw (h, i) refl

-- A field whose first part is a range in bounds with the step 0, such as `*/0`, is never read to the
-- end: the loop over the values does not end on any fuel, and `parse_cron_field` does not return.
pub parse_cron_field-hang :
    (field part : Text) (rest : List Text) (min max : ℕ) (allow_sunday_7 : Bool) (size : ℕ)
    (r : Range)
    → IsField min max allow_sunday_7 size
    → (field =? codes "*") ≡ false
    → split b',' field ≡ part ∷ rest
    → parse_part min max allow_sunday_7 part ≡ some r
    → r.step ≡ 0
    → (parse_cron_field field min max allow_sunday_7 size ≡ hang)
      × ((fuel : ℕ) (s : Seen) → mark fuel allow_sunday_7 min r.step r.end r.start s ≡ hang)
unfolding parse_cron_field
parse_cron_field-hang field part rest min max allow_sunday_7 size r f h i j z =
    let start : Seen = record { out = replicate size false; saw_value = false } in
    let (byte, _, _, order, _, _) =
      range_fits min max size allow_sunday_7 r f (parse_part_lem min max allow_sunday_7 part r j) in
    let loops : (fuel : ℕ) (s : Seen) → mark fuel allow_sunday_7 min r.step r.end r.start s ≡ hang =
      λ fuel s. rw z (mark-hang fuel allow_sunday_7 min r.end r.start s order byte) in
    (
      rw (h, i) (mark_parts-hang min max allow_sunday_7 part rest start r j (loops 257 start)),
      loops,
    )
