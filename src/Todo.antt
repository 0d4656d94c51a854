-- ===== src/Todo.antt =====
-- The to-do list of a session (src/tools/todo.rs). `to_lowercase` is the standard library's, and
-- `into_values` the order in which a `HashMap` gives its values, which is not specified.
pub mod Merge
mod Tests
use openpaw.Prelude.{
  ℕ, Bool, true, false, not, ◌&&◌, ◌||◌, Option, none, some, List, [], ◌∷◌, ◌++◌, map, String, Text,
  codes, text_eq, text_keyed, if◌then◌else◌, any,
}
use openpaw.Scan.{trim}
use openpaw.Dict as Dict

pub record TodoItem : Type 0 where
  pub id : Text
  pub content : Text
  pub status : Text

-- An element of the array `todos`: its fields, where they are strings.
pub record Entry : Type 0 where
  pub id : Option Text
  pub content : Option Text
  pub status : Option Text

abbrev pub valid_statuses : List String
valid_statuses = "pending" ∷ "in_progress" ∷ "completed" ∷ "cancelled" ∷ []

abbrev pub is_valid : Text → Bool
is_valid status = any (λ s. text_eq (codes s) status) valid_statuses

abbrev unwrap_or : Option Text → String → Text
unwrap_or none default = codes default
unwrap_or (some s) default = s

abbrev pub is_blank : Text → Bool
is_blank id = text_eq id [] || text_eq id (codes "?")

module _ (to_lowercase : Text → Text) where
  unfoldable pub normalize_status : Text → Text
  normalize_status raw =
      let s = to_lowercase (trim raw) in if is_valid s then s else codes "pending"

  unfoldable pub to_item : Entry → TodoItem
  unfolding normalize_status
  to_item v = record {
    id = trim (unwrap_or v.id "?");
    content = trim (unwrap_or v.content "(no description)");
    status = normalize_status (unwrap_or v.status "pending");
  }

-- The map `seen`: the last item of each id that is not blank.
abbrev pub collect : List TodoItem → List (Text × TodoItem) → List (Text × TodoItem)
collect [] seen = seen
collect (item ∷ items) seen =
    collect items (if is_blank item.id then seen else Dict.insert item.id item seen)

-- The update of an item in place.
abbrev pub merged : TodoItem → TodoItem → TodoItem
merged new_item item = record item {
  content =
      if text_eq new_item.content [] || text_eq new_item.content (codes "(no description)")
      then item.content
      else new_item.content;
  status = new_item.status;
}

-- The write to the item at the last index of an id among those that were there before the merge.
abbrev pub has_id : Text → List TodoItem → Bool
has_id id items = any (λ item. text_eq item.id id) items

abbrev pub update_last : TodoItem → List TodoItem → List TodoItem
update_last new_item [] = []
update_last new_item (item ∷ items) =
    let rest = update_last new_item items in
    if not (has_id new_item.id items) && text_eq item.id new_item.id
    then merged new_item item ∷ items
    else item ∷ rest

-- The loop of the merge: the items that were there before, and those that are appended.
abbrev pub merge_all : List TodoItem → List TodoItem → List TodoItem → List TodoItem
merge_all [] old appended = old ++ appended
merge_all (new_item ∷ incoming) old appended =
    if is_blank new_item.id
    then merge_all incoming old appended
    else if has_id new_item.id old
    then merge_all incoming (update_last new_item old) appended
    else merge_all incoming old (appended ++ new_item ∷ [])

module _ (to_lowercase : Text → Text) (into_values : List (Text × TodoItem) → List TodoItem) where
  abbrev pub incoming_of : List Entry → List TodoItem
  incoming_of todos = into_values (collect (map (to_item to_lowercase) todos) [])

  -- `TodoStore::write`; the store is its list of items.
  unfoldable pub write : List TodoItem → List Entry → Bool → List TodoItem
  unfolding to_item
  write items todos merge =
      if merge then merge_all (incoming_of todos) items [] else incoming_of todos
