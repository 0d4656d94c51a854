-- ===== src/Todo/Merge.antt =====
-- What a write to a to-do list (src/tools/todo.rs) keeps.
use openpaw.Prelude.{
  ◌≡◌, refl, sym, ap, Bool, true, not, ◌&&◌, List, [], ◌∷◌, ◌++◌, map, Text, text_eq, text_keyed,
  arith, All, length, take, Bool-cases, inl, inr, if◌then◌else◌, if-has,
}
use openpaw.Scan.{trim}
use openpaw.Dict as Dict
use openpaw.Todo.{
  TodoItem, Entry, is_valid, normalize_status, to_item, collect, is_blank, merged, has_id,
  update_last, merge_all, incoming_of, write,
}

-- Items whose status is one of the four.
abbrev pub IsValidItem : TodoItem → Type 0
IsValidItem item = is_valid item.status ≡ true

abbrev pub IsValidList : List TodoItem → Type 0
IsValidList = All IsValidItem

-- What is documented of `into_values`: it returns values of the map and nothing else.
abbrev pub IsOrder : (List (Text × TodoItem) → List TodoItem) → Type 1
IsOrder into_values =
    (P : TodoItem → Type 0) (m : List (Text × TodoItem))
    → All (λ entry. P entry.1) m
    → All P (into_values m)

normalize_status-valid :
    (to_lowercase : Text → Text) (raw : Text) → is_valid (normalize_status to_lowercase raw) ≡ true
unfolding normalize_status
normalize_status-valid to_lowercase raw =
    let s = to_lowercase (trim raw) in
    elim (Bool-cases (is_valid s)) [ inl y ↦ rw y y | inr n ↦ rw n refl ]

ids_kept :
    (new_item : TodoItem) (items : List TodoItem)
    → map (λ x. x.id) (update_last new_item items) ≡ map (λ x. x.id) items
ids_kept new_item [] = refl
ids_kept new_item (item ∷ items) =
    if-has (λ out. map (λ x. x.id) out ≡ item.id ∷ map (λ x. x.id) items)
      (not (has_id new_item.id items) && text_eq item.id new_item.id) (merged new_item item ∷ items)
      (item ∷ update_last new_item items) refl (λ _. ap (◌∷◌ item.id) (ids_kept new_item items))

take-map :
    (old rest : List TodoItem)
    → take (length old) (map (λ x. x.id) (old ++ rest)) ≡ map (λ x. x.id) old
take-map [] rest = refl
take-map (item ∷ old) rest = ap (◌∷◌ item.id) (take-map old rest)

length-update_last :
    (new_item : TodoItem) (items : List TodoItem)
    → length (update_last new_item items) ≡ length items
length-update_last new_item [] = refl
length-update_last new_item (item ∷ items) = ground (arith, length-update_last new_item items)

merge_all-keeps :
    (incoming old appended : List TodoItem)
    → take (length old) (map (λ x. x.id) (merge_all incoming old appended)) ≡ map (λ x. x.id) old
merge_all-keeps [] old appended = take-map old appended
merge_all-keeps (new_item ∷ incoming) old appended =
    let Kept : List TodoItem → Type 0 =
      λ out. take (length old) (map (λ x. x.id) out) ≡ map (λ x. x.id) old in
    let updated = update_last new_item old in
    if-has Kept (is_blank new_item.id) (merge_all incoming old appended)
      (if has_id new_item.id old
        then merge_all incoming updated appended
        else merge_all incoming old (appended ++ new_item ∷ []))
      (merge_all-keeps incoming old appended)
      (λ _.
        if-has Kept (has_id new_item.id old) (merge_all incoming updated appended)
          (merge_all incoming old (appended ++ new_item ∷ []))
          (rw (sym (length-update_last new_item old), sym (ids_kept new_item old))
            (merge_all-keeps incoming updated appended))
          (λ _. merge_all-keeps incoming old (appended ++ new_item ∷ [])))

-- A merge leaves the items that were there in their places: their ids, in order, are the first ids of
-- the new list.
pub write-keeps :
    (to_lowercase : Text → Text) (into_values : List (Text × TodoItem) → List TodoItem)
    (items : List TodoItem) (todos : List Entry)
    → take (length items) (map (λ x. x.id) (write to_lowercase into_values items todos true))
      ≡ map (λ x. x.id) items
unfolding write
write-keeps to_lowercase into_values items todos =
    merge_all-keeps (incoming_of to_lowercase into_values todos) items []

All-append :
    (P : TodoItem → Type 0) (xs ys : List TodoItem) → All P xs → All P ys → All P (xs ++ ys)
All-append P [] ys h k = k
All-append P (x ∷ xs) ys h k = (h.0, All-append P xs ys h.1 k)

insert-valid :
    (id : Text) (item : TodoItem) (m : List (Text × TodoItem))
    → IsValidItem item
    → All (λ entry. IsValidItem entry.1) m
    → All (λ entry. IsValidItem entry.1) (Dict.insert id item m)
insert-valid id item [] v h = (v, tt)
insert-valid id item ((j, w) ∷ m) v h =
    if-has (All (λ entry. IsValidItem entry.1)) (text_eq j id) ((id, item) ∷ m)
      ((j, w) ∷ Dict.insert id item m) (v, h.1) (λ _. (h.0, insert-valid id item m v h.1))

collect-valid :
    (items : List TodoItem) (seen : List (Text × TodoItem))
    → IsValidList items
    → All (λ entry. IsValidItem entry.1) seen
    → All (λ entry. IsValidItem entry.1) (collect items seen)
collect-valid [] seen v h = h
collect-valid (item ∷ items) seen v h =
    collect-valid items (if is_blank item.id then seen else Dict.insert item.id item seen) v.1 (
      if-has (All (λ entry. IsValidItem entry.1)) (is_blank item.id) seen
        (Dict.insert item.id item seen) h (λ _. insert-valid item.id item seen v.0 h))

to_item-valid :
    (to_lowercase : Text → Text) (todos : List Entry)
    → IsValidList (map (to_item to_lowercase) todos)
unfolding to_item
to_item-valid to_lowercase [] = tt
to_item-valid to_lowercase (v ∷ todos) =
    (normalize_status-valid to_lowercase _, to_item-valid to_lowercase todos)

update_last-valid :
    (new_item : TodoItem) (items : List TodoItem)
    → IsValidItem new_item
    → IsValidList items
    → IsValidList (update_last new_item items)
update_last-valid new_item [] v h = tt
update_last-valid new_item (item ∷ items) v h =
    if-has IsValidList (not (has_id new_item.id items) && text_eq item.id new_item.id)
      (merged new_item item ∷ items) (item ∷ update_last new_item items) (v, h.1)
      (λ _. (h.0, update_last-valid new_item items v h.1))

merge_all-valid :
    (incoming old appended : List TodoItem)
    → IsValidList incoming
    → IsValidList old
    → IsValidList appended
    → IsValidList (merge_all incoming old appended)
merge_all-valid [] old appended v h k = All-append IsValidItem old appended h k
merge_all-valid (new_item ∷ incoming) old appended v h k =
    let updated = update_last new_item old in
    let longer = appended ++ new_item ∷ [] in
    if-has IsValidList (is_blank new_item.id) (merge_all incoming old appended)
      (if has_id new_item.id old
        then merge_all incoming updated appended
        else merge_all incoming old longer)
      (merge_all-valid incoming old appended v.1 h k)
      (λ _.
        if-has IsValidList (has_id new_item.id old) (merge_all incoming updated appended)
          (merge_all incoming old longer)
          (merge_all-valid incoming updated appended v.1 (update_last-valid new_item old v.0 h) k)
          (λ _.
            merge_all-valid incoming old longer v.1 h
              (All-append IsValidItem appended (new_item ∷ []) k (v.0, tt))))

-- Whatever an agent writes, replacing or merging, the status of every item is one of the four that
-- the tool knows, if it was before. (`into_values` returns values of the map, in any order.)
pub write-IsValidList :
    (to_lowercase : Text → Text) (into_values : List (Text × TodoItem) → List TodoItem)
    (items : List TodoItem) (todos : List Entry) (merge : Bool)
    → IsOrder into_values
    → IsValidList items
    → IsValidList (write to_lowercase into_values items todos merge)
unfolding write
write-IsValidList to_lowercase into_values items todos merge order h =
    let incoming = incoming_of to_lowercase into_values todos in
    let v : IsValidList incoming =
      order IsValidItem _ (
        collect-valid (map (to_item to_lowercase) todos) [] (to_item-valid to_lowercase todos)
          tt) in
    if-has IsValidList merge (merge_all incoming items []) incoming
      (merge_all-valid incoming items [] v h tt) (λ _. v)
