-- ===== src/Security/Paths.antt =====
-- pkg/security/path.go: the checks of paths that do not read the file system, on a Unix system.
pub mod Normal
pub mod Tests
use kube_op.Prelude.{
  ℕ, ◌≡◌, ◌≢◌, Bool, true, false, not, ◌&&◌, ◌||◌, List, [], ◌∷◌, ◌++◌, Option, none, some, any,
  ltb, leb, ◌==◌, if◌then◌else◌, Result, ok, err,
}
use kube_op.Text.{
  Text, text, is_empty, same, trim_space, to_lower, has_prefix, contains, split, join,
}

pub data PathFailure : Type 0 where
  backslash encoded_traversal control_character colon absolute traversal : PathFailure
  info_required is_directory special_file drive_letter bad_escape : PathFailure

abbrev pub is_control : ℕ → Bool
is_control c = ltb c 32 || c == 127

abbrev pub is_dot_dot : Text → Bool
is_dot_dot part = same part (text "..")

-- What `filepath.Clean` makes of one element, on the elements so far, the last one first.
abbrev pub clean_up : Bool → List Text → List Text
clean_up rooted [] = if rooted then [] else text ".." ∷ []
clean_up rooted (top ∷ stack) = if is_dot_dot top then text ".." ∷ top ∷ stack else stack

abbrev pub clean_part : Bool → Text → List Text → List Text
clean_part rooted part stack =
    if is_empty part || same part (text ".")
    then stack
    else if is_dot_dot part
    then clean_up rooted stack
    else part ∷ stack

abbrev pub clean_parts : Bool → List Text → List Text → List Text
clean_parts rooted [] stack = stack
clean_parts rooted (part ∷ parts) stack = clean_parts rooted parts (clean_part rooted part stack)

abbrev pub rev_onto : List Text → List Text → List Text
rev_onto [] acc = acc
rev_onto (part ∷ parts) acc = rev_onto parts (part ∷ acc)

abbrev pub cleaned : Bool → List Text → Text
cleaned true parts = b'/' ∷ join b'/' parts
cleaned false [] = text "."
cleaned false (part ∷ parts) = join b'/' (part ∷ parts)

-- `filepath.IsAbs`
abbrev pub is_abs : Text → Bool
is_abs [] = false
is_abs (c ∷ path) = c == b'/'

-- `filepath.Clean`
unfoldable pub clean : Text → Text
unfolding split same join
clean path = cleaned (is_abs path) (rev_onto (clean_parts (is_abs path) (split b'/' path) []) [])

-- The checks of `NormalizeRepoPath` on a cleaned path.
abbrev pub checked : Text → Result PathFailure Text
checked path =
    if same path (text ".")
    then ok []
    else if is_abs path
    then err absolute
    else if has_prefix path (text "../") || same path (text "..")
    then err traversal
    else ok path

-- `NormalizeRepoPath`; there are no volume names on Unix.
unfoldable pub normalize_repo_path : Text → Result PathFailure Text
unfolding trim_space contains to_lower clean same has_prefix
normalize_repo_path input =
    let trimmed = trim_space input in
    if is_empty trimmed
    then ok []
    else if contains trimmed (text "\\")
    then err backslash
    else if contains (to_lower trimmed) (text "%2e")
    then err encoded_traversal
    else if any is_control trimmed
    then err control_character
    else if contains trimmed (text ":")
    then err colon
    else checked (clean trimmed)

-- `fs.FileMode`
pub record FileMode : Type 0 where
  pub is_dir : Bool
  pub is_symlink : Bool
  pub is_device : Bool
  pub is_named_pipe : Bool
  pub is_socket : Bool
  pub is_irregular : Bool

-- `FileMode.IsRegular`: no bit of the type is set; a character device has the bit of devices too.
abbrev pub is_regular : FileMode → Bool
is_regular m =
    not
      (m.is_dir || m.is_symlink || m.is_device || m.is_named_pipe || m.is_socket || m.is_irregular)

-- `EnsureRegularFile`; `none` is a nil info.
unfoldable pub ensure_regular_file : Option FileMode → Option PathFailure
ensure_regular_file none = some info_required
ensure_regular_file (some mode) =
    if is_regular mode
    then none
    else if mode.is_dir
    then some is_directory
    else if mode.is_symlink
    then none
    else if mode.is_device || mode.is_named_pipe || mode.is_socket
    then some special_file
    else none

abbrev pub is_letter : ℕ → Bool
is_letter c = (leb b'A' c && leb c b'Z') || (leb b'a' c && leb c b'z')

-- `RejectWindowsDrive`
unfoldable pub reject_windows_drive : Text → Option PathFailure
reject_windows_drive [] = none
reject_windows_drive (c ∷ []) = none
reject_windows_drive (c ∷ d ∷ path) = if d == b':' && is_letter c then some drive_letter else none

-- `DecodePathSegment`; `unescape` is `url.PathUnescape`.
unfoldable pub decode_path_segment : (Text → Option Text) → Text → Result PathFailure Text
unfolding contains
decode_path_segment unescape seg = elim (unescape seg) [
  | none ↦ err bad_escape
  | some decoded ↦ if contains decoded (text "..") then err traversal else ok decoded
]
