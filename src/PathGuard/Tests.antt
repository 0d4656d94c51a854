-- ===== src/PathGuard/Tests.antt =====
-- Runs of the guard of paths (src/tools/path_security.rs), and its theorem at an input.
use openpaw.Prelude.{◌≡◌, refl, true, false, none, some, [], ◌∷◌, codes}
use openpaw.Scan.{split}
use openpaw.PathGuard.{is_path_safe, is_blocked, system_blocked_prefixes, is_resolved_path_allowed}

program : Unit {0}
unfolding is_path_safe is_blocked system_blocked_prefixes is_resolved_path_allowed split
program = tt

safe_paths :
    (is_path_safe (codes "a/b.txt") ≡ true)
    × (is_path_safe (codes "a/../b") ≡ false)
    × (is_path_safe (codes "a/..b") ≡ true)
    × (is_path_safe (97 ∷ 0 ∷ []) ≡ false)
unfolding program
safe_paths = (refl, refl, refl, refl)

resolved_paths :
    (is_resolved_path_allowed (some (codes "/w/a")) (some (codes "/w")) [] ≡ true)
    × (is_resolved_path_allowed (some (codes "/world/a")) (some (codes "/w")) [] ≡ false)
    × (is_resolved_path_allowed
          (some (codes "/data/a"))
          (some (codes "/w"))
          (none ∷ some (codes "/data") ∷ [])
        ≡ true)
    × (is_resolved_path_allowed (some (codes "/etc/passwd")) (some (codes "/")) [] ≡ false)
unfolding program
resolved_paths = (refl, refl, refl, refl)

-- The blocklist is one of characters: a directory whose name only begins with a blocked name is
-- refused as well.
etcetera : is_blocked (codes "/etcetera/notes") ≡ true
unfolding program
etcetera = refl
