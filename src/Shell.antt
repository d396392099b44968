-- ===== src/Shell.antt =====
-- internal/bastion/service.go: the scanners that split a shell command for the rules. Each Go loop
-- over `command[i]` is a recursion on the bytes left, with the bytes already read reversed in
-- `before`, one step function over the loop's variables, and `skip` for the bytes that an
-- assignment to `i` passes over.
pub mod Names
pub mod Redirect
pub mod Quoting
pub mod Channel
pub mod Unquote
pub mod Passing
pub mod Unsafe
mod Tests
use gosshd_bastion.Base.{
  ℕ, zero, suc, ◌+◌, Bool, true, false, not, ◌&&◌, ◌||◌, List, [], ◌∷◌, ◌++◌, Option, none, some,
  ◌==◌, if◌then◌else◌, leb, is_empty, length, drop,
}
use gosshd_bastion.Base.Bytes.{
  Bytes, codes, bytes_eq, has_prefix, has_byte, cut, is_blank, trim_space, trim_blanks,
  trim_slashes,
}

abbrev pub quote_byte : ℕ → Bool
quote_byte c = c == 0x27 || c == b'"'

-- The variables of `shellCommandParts`; `quote` is 0 outside quotes.
pub record Scan : Type 0 where
  pub segments : List Bytes
  pub current : Bytes
  pub quote : ℕ
  pub escaped : Bool
  pub channel : Bool
  pub skip : Bool

-- What `flush` appends to the list.
unfoldable pub flushed : Bytes → List Bytes
flushed current = let piece = trim_space current in if is_empty piece then [] else piece ∷ []

abbrev pub push : Scan → ℕ → Scan
push s c = record s { current = s.current ++ c ∷ [] }

abbrev pub flush : Scan → Scan
flush s = record s { segments = s.segments ++ flushed s.current; current = [] }

abbrev pub starts_with : ℕ → Bytes → Bool
starts_with b [] = false
starts_with b (c ∷ cs) = c == b

-- The loop of `isShellRedirectionAmpersand`, backwards over the bytes before the `&`.
unfoldable pub last_is_redirect : Bytes → Bool
last_is_redirect [] = false
last_is_redirect (c ∷ before) = if is_blank c then last_is_redirect before else c == b'>'

unfoldable pub is_redirection_ampersand : Bytes → Bytes → Bool
unfolding last_is_redirect
is_redirection_ampersand before rest = starts_with b'>' rest || last_is_redirect before

-- One round of the loop of `shellCommandParts` on the byte `c`.
unfoldable pub parts_step : Bytes → ℕ → Bytes → Scan → Scan
parts_step before c rest s =
    if s.skip
    then record s { skip = false }
    else if s.escaped
    then record (push s c) { escaped = false }
    else if not (s.quote == 0x27) && c == b'\\'
    then record (push s c) { escaped = true }
    else if not (s.quote == 0)
    then record (push s c) { quote = if c == s.quote then 0 else s.quote }
    else if quote_byte c
    then record (push s c) { quote = c }
    else if c == b';' || c == b'\n' || c == b'\r'
    then flush s
    else if c == b'|'
    then record (flush s) { channel = true; skip = starts_with b'|' rest }
    else if c == b'&' && not (is_redirection_ampersand before rest)
    then record (flush s) { skip = starts_with b'&' rest }
    else push s c

unfoldable pub parts_loop : Bytes → Bytes → Scan → Scan
parts_loop before [] s = s
parts_loop before (c ∷ rest) s = parts_loop (c ∷ before) rest (parts_step before c rest s)

abbrev pub fresh : Scan
fresh = record {
  segments = [];
  current = [];
  quote = 0;
  escaped = false;
  channel = false;
  skip = false;
}

unfoldable pub command_parts : Bytes → List Bytes × Bool
command_parts command =
    let text = trim_space command in
    let s = parts_loop [] text fresh in
    if is_empty text then ([], false) else ((flush s).segments, s.channel)

unfoldable pub command_segments : Bytes → List Bytes
unfolding command_parts
command_segments command = (command_parts command).0

unfoldable pub command_has_channel : Bytes → Bool
unfolding command_parts
command_has_channel command = (command_parts command).1

-- `shellWords`: quotes and backslashes are taken off.
pub record Words : Type 0 where
  pub words : List Bytes
  pub current : Bytes
  pub quote : ℕ
  pub escaped : Bool

unfoldable pub words_step : ℕ → Words → Words
words_step c s =
    if s.escaped
    then record s { current = s.current ++ c ∷ []; escaped = false }
    else if not (s.quote == 0x27) && c == b'\\'
    then record s { escaped = true }
    else if not (s.quote == 0)
    then (if c == s.quote
        then record s { quote = 0 }
        else record s { current = s.current ++ c ∷ [] })
    else if quote_byte c
    then record s { quote = c }
    else if c == b' ' || c == b'\t' || c == b'<' || c == b'>'
    then record s { words = s.words ++ flushed s.current; current = [] }
    else record s { current = s.current ++ c ∷ [] }

unfoldable pub words_loop : Bytes → Words → Words
words_loop [] s = s
words_loop (c ∷ rest) s = words_loop rest (words_step c s)

unfoldable pub shell_words : Bytes → List Bytes
shell_words segment =
    let s = words_loop segment (record { words = []; current = []; quote = 0; escaped = false }) in
    s.words ++ flushed s.current
