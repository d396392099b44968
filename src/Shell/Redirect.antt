-- ===== src/Shell/Redirect.antt =====
-- internal/bastion/service.go: the search for output redirections that do not go to a safe target.
use gosshd_bastion.Base.{
  ℕ, ◌+◌, ◌-◌, Bool, true, false, not, ◌&&◌, ◌||◌, [], ◌∷◌, ◌++◌, ◌==◌, if◌then◌else◌, length, drop,
}
use gosshd_bastion.Base.Bytes.{Bytes, codes, bytes_eq, trim_space, trim_blanks}
use gosshd_bastion.Shell.{quote_byte, starts_with}

-- The variables of `shellRedirectionTarget`; `done` says that the loop was left.
pub record Target : Type 0 where
  pub out : Bytes
  pub quote : ℕ
  pub escaped : Bool
  pub done : Bool

unfoldable pub target_step : ℕ → Target → Target
target_step c s =
    if s.done
    then s
    else if s.escaped
    then record s { out = s.out ++ c ∷ []; escaped = false }
    else if not (s.quote == 0x27) && c == b'\\'
    then record s { escaped = true }
    else if not (s.quote == 0)
    then (if c == s.quote then record s { quote = 0 } else record s { out = s.out ++ c ∷ [] })
    else if quote_byte c
    then record s { quote = c }
    else if c == b' ' || c == b'\t' || c == b';' || c == b'|' || c == b'&'
    then record s { done = true }
    else record s { out = s.out ++ c ∷ [] }

unfoldable pub target_loop : Bytes → Target → Target
target_loop [] s = s
target_loop (c ∷ rest) s = target_loop rest (target_step c s)

unfoldable pub redirection_target : Bytes → Bytes
unfolding target_loop target_step trim_space trim_blanks
redirection_target raw =
    trim_space
      (target_loop (trim_blanks raw)
        (record { out = []; quote = 0; escaped = false; done = false })).out

unfoldable pub is_safe_target : Bytes → Bool
unfolding bytes_eq
is_safe_target target =
    let text = trim_space target in
    bytes_eq text (codes "/dev/null") || bytes_eq text (codes "&1") || bytes_eq text (codes "&2")

-- The variables of `hasUnsafeOutputRedirection`; `skip` counts the bytes that `i = …` passes over.
pub record Search : Type 0 where
  pub quote : ℕ
  pub escaped : Bool
  pub skip : ℕ
  pub found : Bool

unfoldable pub unsafe_step : Bool → ℕ → Bytes → Search → Search
unsafe_step append_only c rest s =
    let is_append = starts_with b'>' rest in
    let target = redirection_target (if is_append then drop 1 rest else rest) in
    if s.found
    then s
    else if not (s.skip == 0)
    then record s { skip = s.skip - 1 }
    else if s.escaped
    then record s { escaped = false }
    else if not (s.quote == 0x27) && c == b'\\'
    then record s { escaped = true }
    else if not (s.quote == 0)
    then record s { quote = if c == s.quote then 0 else s.quote }
    else if quote_byte c
    then record s { quote = c }
    else if not (c == b'>')
    then s
    else if append_only && not is_append
    then s
    else if is_safe_target target
    then record s { skip = (if is_append then 1 else 0) + length target }
    else record s { found = true }

unfoldable pub unsafe_loop : Bool → Bytes → Search → Search
unsafe_loop append_only [] s = s
unsafe_loop append_only (c ∷ rest) s =
    unsafe_loop append_only rest (unsafe_step append_only c rest s)

abbrev pub searching : Search
searching = record { quote = 0; escaped = false; skip = 0; found = false }

unfoldable pub has_unsafe_redirection : Bytes → Bool → Bool
has_unsafe_redirection command append_only = (unsafe_loop append_only command searching).found
