-- ===== src/Todo/Tests.antt =====
-- Runs of the to-do list (src/tools/todo.rs), and its theorems at inputs.
use openpaw.Prelude.{◌≡◌, refl, true, false, some, List, [], ◌∷◌, Text, codes}
use openpaw.Scan.{trim_start, trim_end}
use openpaw.Todo.{TodoItem, Entry, normalize_status, to_item, write}
use openpaw.Todo.Merge.{IsValidList, IsOrder, write-IsValidList}

program : Unit {0}
unfolding normalize_status to_item write trim_start trim_end
program = tt

abbrev lower : Text → Text
lower s = s

-- One order in which a map may give its values: that of the model's list.
abbrev values : List (Text × TodoItem) → List TodoItem
values [] = []
values ((id, item) ∷ m) = item ∷ values m

values-IsOrder : IsOrder values
values-IsOrder P [] h = tt
values-IsOrder P ((id, item) ∷ m) h = (h.0, values-IsOrder P m h.1)

abbrev item : Text → Text → Text → TodoItem
item id content status = record { id = id; content = content; status = status }

abbrev entry : Text → Text → Text → Entry
entry id content status = record { id = some id; content = some content; status = some status }

abbrev two_items : List TodoItem
two_items =
    item (codes "1") (codes "Task A") (codes "pending")
    ∷ item (codes "2") (codes "Task B") (codes "pending")
    ∷ []

abbrev update : List Entry
update =
    entry (codes "1") (codes "Task A") (codes "completed")
    ∷ entry (codes " 3 ") (codes "Task C") (codes "later")
    ∷ entry (codes "?") (codes "nothing") (codes "pending")
    ∷ []

merge_updates :
    write lower values two_items update true
    ≡ item (codes "1") (codes "Task A") (codes "completed")
      ∷ item (codes "2") (codes "Task B") (codes "pending")
      ∷ item (codes "3") (codes "Task C") (codes "pending")
      ∷ []
unfolding program
merge_updates = refl

write-IsValidList_example : IsValidList (write lower values two_items update false)
write-IsValidList_example =
    write-IsValidList lower values two_items update false values-IsOrder (refl, (refl, tt))
