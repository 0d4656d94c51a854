-- ===== src/PathGuard.antt =====
-- Which paths the tools may touch (src/tools/path_security.rs, on Unix). A path is a text; the file
-- system resolves it, and the functions below are given what it says.
pub mod Inside
mod Tests
use openpaw.Prelude.{
  Bool, true, false, not, ◌&&◌, ◌||◌, Option, none, some, List, [], ◌∷◌, String, Text, codes,
  text_eq, if◌then◌else◌, ◌==◌, any, retain, map,
}
use openpaw.Scan.{split, starts_with}

unfoldable pub system_blocked_prefixes : List String
system_blocked_prefixes =
    "/System" ∷ "/Library" ∷ "/bin" ∷ "/sbin" ∷ "/usr/bin" ∷ "/usr/sbin" ∷ "/usr/lib"
    ∷ "/usr/libexec" ∷ "/etc" ∷ "/private/etc" ∷ "/private/var" ∷ "/dev" ∷ "/boot" ∷ "/proc"
    ∷ "/sys" ∷ []

-- `..` is the one component that is a `ParentDir`.
unfoldable pub is_path_safe : Text → Bool
is_path_safe path =
    not (any (λ c. c == 0) path) && not (any (λ part. text_eq part (codes "..")) (split b'/' path))

abbrev pub is_named : Text → Bool
is_named [] = false
is_named (c ∷ s) = true

-- `Path::components` of a canonical path, which is absolute and has no `.` and no `..`.
abbrev pub components : Text → List Text
components path = retain is_named (split b'/' path)

abbrev pub is_prefix : List Text → List Text → Bool
is_prefix [] path = true
is_prefix (x ∷ base) [] = false
is_prefix (x ∷ base) (y ∷ path) = text_eq x y && is_prefix base path

-- `Path::starts_with`: by components.
abbrev pub path_starts_with : Text → Text → Bool
path_starts_with base path = is_prefix (components base) (components path)

-- The blocklist compares by characters.
unfoldable pub is_blocked : Text → Bool
is_blocked target = any (λ prefix. starts_with (codes prefix) target) system_blocked_prefixes

abbrev pub inside_one : Option Text → Text → Bool
inside_one none target = false
inside_one (some base) target = path_starts_with base target

-- What `is_resolved_path_allowed` answers for the canonical forms of the target, of the workspace and
-- of the additional paths, `none` where `canonicalize` fails.
unfoldable pub is_resolved_path_allowed : Option Text → Option Text → List (Option Text) → Bool
unfolding is_blocked
is_resolved_path_allowed none workspace additional = false
is_resolved_path_allowed (some target) none additional = false
is_resolved_path_allowed (some target) (some workspace) additional =
    if is_blocked target
    then false
    else if path_starts_with workspace target
    then true
    else any (λ allowed. inside_one allowed target) additional
