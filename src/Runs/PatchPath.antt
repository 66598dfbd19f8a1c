-- ===== src/Runs/PatchPath.antt =====
-- `normalizePatchPath` of internal/agentruns/store.go, with what it uses of Go's `strings.Split` and
-- `path` package. `hasWindowsDrivePrefix` reads bytes; a first byte that is a letter is a character.
pub mod Safe
pub mod Tests
use Prim.Native.Char.{Char, code}
use Prim.Native.String
use mathlib.Core.List.{reverse, foldl}
use ia_cstudio.Prelude.{
  ℕ, ◌≡◌, refl, Bool, true, false, not, ◌&&◌, ◌||◌, String, ◌<>◌, List, [], ◌∷◌, arith, leb, eqb,
  if◌then◌else◌, any, ◌==◌, Result, ok, err, ◌>>=◌,
}
use ia_cstudio.Text.Trim.{trim_space, contains}
use ia_cstudio.Runs.Types.{Error}

-- one character in front of the parts of the rest
split_cons : Char → List String → List String
split_cons c [] = []
split_cons c (part ∷ parts) =
    if eqb (code c) b'/' then "" ∷ part ∷ parts else String.◌∷◌ c part ∷ parts

-- `strings.Split(path, "/")`
unfoldable pub split_slash : String → List String
unfolding split_cons
split_slash String.[] = "" ∷ []
split_slash (String.◌∷◌ c s) = split_cons c (split_slash s)

unfoldable pub join_slash : List String → String
join_slash [] = ""
join_slash (part ∷ []) = part
join_slash (part ∷ next ∷ parts) = part <> String.◌∷◌ "/" (join_slash (next ∷ parts))

-- `path.IsAbs`
is_abs : String → Bool
is_abs String.[] = false
is_abs (String.◌∷◌ c s) = eqb (code c) b'/'

is_letter : ℕ → Bool
is_letter c = leb b'A' c && leb c b'Z' || leb b'a' c && leb c b'z'

has_windows_drive_prefix : String → Bool
unfolding is_letter
has_windows_drive_prefix String.[] = false
has_windows_drive_prefix (String.◌∷◌ c String.[]) = false
has_windows_drive_prefix (String.◌∷◌ c (String.◌∷◌ d s)) = eqb (code d) b':' && is_letter (code c)

-- `path.Clean`: a ".." removes the last part kept; at the root it is dropped, and a relative path
-- keeps the ones that lead out of it. The stack has the last part first.
back : Bool → List String → List String
back rooted [] = if rooted then [] else ".." ∷ []
back rooted (top ∷ rest) = if top == ".." then ".." ∷ top ∷ rest else rest

clean_part : Bool → List String → String → List String
unfolding back
clean_part rooted stack part =
    if part == "" || part == "."
    then stack
    else if part == ".."
    then back rooted stack
    else part ∷ stack

clean_parts : Bool → List String → List String → List String
clean_parts rooted stack [] = reverse stack
clean_parts rooted stack (part ∷ parts) = clean_parts rooted (clean_part rooted stack part) parts

clean : String → String
unfolding clean_part clean_parts split_slash join_slash is_abs
clean path =
    let body = join_slash (clean_parts (is_abs path) [] (split_slash path)) in
    if is_abs path then String.◌∷◌ "/" body else if body == "" then "." else body

abbrev is_dot_dot : String → Bool
is_dot_dot segment = segment == ".."

-- `strings.HasPrefix(cleaned, "../")`
abbrev leads_out : List String → Bool
leads_out (first ∷ next ∷ parts) = first == ".."
leads_out _ = false

pub normalize_patch_path : String → Result Error String
unfolding has_windows_drive_prefix
normalize_patch_path raw =
    let patch_path = trim_space raw in
    let cleaned = clean patch_path in
    if patch_path == ""
    then err Error.patch_path_required
    else if contains patch_path "\\" || has_windows_drive_prefix patch_path || is_abs patch_path
    then err Error.unsafe_patch_path
    else if any is_dot_dot (split_slash patch_path)
    then err Error.unsafe_patch_path
    else if cleaned == "." || cleaned == ".." || leads_out (split_slash cleaned)
    then err Error.unsafe_patch_path
    else ok cleaned
