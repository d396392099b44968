-- ===== src/Shell/Names.antt =====
-- internal/bastion/service.go: which command a segment runs, and the bare patterns that name one.
use gosshd_bastion.Base.{
  ℕ, Bool, false, ◌&&◌, ◌||◌, List, [], ◌∷◌, none, some, ◌==◌, if◌then◌else◌, leb, is_empty, every,
  any,
}
use gosshd_bastion.Base.Bytes.{Bytes, codes, bytes_eq, has_prefix, cut, trim_space, trim_slashes}
use gosshd_bastion.Shell.{command_segments, shell_words}

abbrev within : ℕ → ℕ → ℕ → Bool
within lo hi c = leb lo c && leb c hi

abbrev is_letter : ℕ → Bool
is_letter c = within b'a' b'z' c || within b'A' b'Z' c

abbrev is_digit : ℕ → Bool
is_digit = within b'0' b'9'

-- A byte of a character outside ASCII fails, as the character does.
is_bare_byte : ℕ → Bool
is_bare_byte c = is_letter c || is_digit c || c == b'_' || c == b'-' || c == b'.' || c == b'/'

unfoldable pub is_bare_pattern : Bytes → Bool
unfolding is_bare_byte
is_bare_pattern [] = false
is_bare_pattern (c ∷ cs) = every is_bare_byte (c ∷ cs)

unfoldable pub is_command_wrapper : Bytes → Bool
unfolding bytes_eq
is_command_wrapper base = any (bytes_eq base) (
    codes "sudo"
    ∷ codes "doas"
    ∷ codes "env"
    ∷ codes "command"
    ∷ codes "builtin"
    ∷ codes "exec"
    ∷ codes "nohup"
    ∷ codes "time"
    ∷ [])

-- The name before `=`: a letter or `_`, then letters, digits or `_`. It is not empty.
is_env_name : Bytes → Bool
is_env_name [] = false
is_env_name (c ∷ cs) =
    (c == b'_' || is_letter c) && every (λ d. d == b'_' || is_letter d || is_digit d) cs

unfoldable pub is_env_assignment : Bytes → Bool
unfolding is_env_name cut
is_env_assignment word = elim (cut b'=' word) [
  | none ↦ false
  | some (name, value) ↦ is_env_name name
]

-- What stands behind the last `/`.
after_slash : Bytes → Bytes → Bytes
after_slash best [] = best
after_slash best (c ∷ cs) = after_slash (if c == b'/' then cs else best) cs

unfoldable pub token_base : Bytes → Bytes
unfolding after_slash trim_slashes
token_base token = let bare = trim_slashes token in after_slash bare bare

-- The loop over the words: wrappers, options and assignments are passed over.
unfoldable pub name_in_words : Bytes → List Bytes → Bool
unfolding is_env_assignment is_command_wrapper token_base has_prefix trim_space
name_in_words pattern [] = false
name_in_words pattern (raw ∷ words) =
    let word = trim_space raw in
    let base = token_base word in
    let rest = name_in_words pattern words in
    if is_empty word
    then rest
    else if is_env_assignment word
    then rest
    else if is_command_wrapper base
    then rest
    else if has_prefix (codes "-") word
    then rest
    else bytes_eq word pattern || bytes_eq base pattern

unfoldable pub name_in_segment_matches : Bytes → Bytes → Bool
unfolding name_in_words shell_words
name_in_segment_matches segment pattern = name_in_words pattern (shell_words segment)

unfoldable pub command_name_matches : Bytes → Bytes → Bool
unfolding name_in_segment_matches command_segments
command_name_matches command pattern =
    any (λ segment. name_in_segment_matches segment pattern) (command_segments command)
