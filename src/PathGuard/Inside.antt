-- ===== src/PathGuard/Inside.antt =====
-- What a path that is allowed (src/tools/path_security.rs) lies in.
use openpaw.Prelude.{◌≡◌, ◌↔◌, true, false, Option, some, List, ◌∷◌, Text, arith, any}
use openpaw.PathGuard.{is_resolved_path_allowed, is_blocked, inside_one}

-- A target is allowed exactly if it has a canonical form, the workspace has one too, the form begins
-- with no blocked prefix, and it lies in the workspace or in one of the additional paths.
pub is_resolved_path_allowed_iff :
    (target workspace : Text) (additional : List (Option Text))
    → (is_resolved_path_allowed (some target) (some workspace) additional ≡ true) ↔ (
        (is_blocked target ≡ false)
        × (any (λ a. inside_one a target) (some workspace ∷ additional) ≡ true))
unfolding is_resolved_path_allowed
is_resolved_path_allowed_iff target workspace additional = ground arith
