-- ===== src/Terminal/Screen.antt =====
-- internal/server/terminal_session_manager.go: `stripANSI` and the screen buffer.
use gosshd_bastion.Base.{
  ℕ, ◌-◌, Bool, ◌&&◌, ◌||◌, List, [], ◌∷◌, ◌++◌, ltb, leb, ◌==◌, if◌then◌else◌, length, drop,
  is_empty,
}
use gosshd_bastion.Base.Bytes.{Bytes, codes, has_prefix}

-- What the screen takes from the packages `bytes` and `unicode/utf8`.
pub record Text : Type 0 where
  pub to_valid_utf8 : Bytes → Bytes
  pub runes : Bytes → List ℕ

-- Outside a sequence `ESC [ …`, in front of its `[`, or behind it.
pub data AnsiMode : Type 0 where
  in_text : AnsiMode
  opening : AnsiMode
  skipping : AnsiMode

abbrev is_final : ℕ → Bool
is_final c = leb 0x40 c && leb c 0x7E

unfoldable pub strip_from : AnsiMode → Bytes → Bytes
unfolding has_prefix
strip_from in_text [] = []
strip_from in_text (c ∷ s) =
    let skipped = strip_from opening s in
    let kept = strip_from in_text s in
    if c == 0x1B && has_prefix (codes "[") s then skipped else c ∷ kept
strip_from opening [] = []
strip_from opening (c ∷ s) = strip_from skipping s
strip_from skipping [] = []
strip_from skipping (c ∷ s) = strip_from (if is_final c then in_text else skipping) s

unfoldable pub strip_ansi : Bytes → Bytes
unfolding strip_from
strip_ansi input = strip_from in_text input

pub record Screen : Type 0 where
  pub rows : ℕ
  pub lines : List (List ℕ)
  pub cur : List ℕ

unfoldable pub new_screen : ℕ → Screen
new_screen rows = record { rows = if rows == 0 then 32 else rows; lines = []; cur = [] }

abbrev last_lines : ℕ → List (List ℕ) → List (List ℕ)
last_lines rows lines = if ltb rows (length lines) then drop (length lines - rows) lines else lines

unfoldable pub set_rows : ℕ → Screen → Screen
set_rows rows b = if rows == 0 then b else record b { rows = rows; lines = last_lines rows b.lines }

unfoldable pub push_line : List ℕ → Screen → Screen
push_line line b = record b { lines = last_lines b.rows (b.lines ++ line ∷ []) }

-- All but the last rune.
unfoldable pub init : List ℕ → List ℕ
init [] = []
init (c ∷ s) = let rest = init s in if is_empty s then [] else c ∷ rest

-- One rune, given those behind it.
unfoldable pub put_rune : ℕ → List ℕ → Screen → Screen
unfolding push_line init
put_rune r behind b =
    if r == b'\r'
    then (if has_prefix (0x0A ∷ []) behind then b else record b { cur = [] })
    else if r == 0x0A
    then record (push_line b.cur b) { cur = [] }
    else if r == 8
    then record b { cur = init b.cur }
    else if leb 32 r || r == 9
    then record b { cur = b.cur ++ r ∷ [] }
    else b

unfoldable pub put_runes : List ℕ → Screen → Screen
unfolding put_rune
put_runes [] b = b
put_runes (r ∷ rs) b = put_runes rs (put_rune r rs b)

unfoldable pub screen_write : Text → Bytes → Screen → Screen
unfolding put_runes strip_ansi
screen_write t text b = put_runes (t.runes (strip_ansi (t.to_valid_utf8 text))) b

-- The lines of `String`, before they are joined.
unfoldable pub shown_lines : Screen → List (List ℕ)
shown_lines b = last_lines b.rows (b.lines ++ (if is_empty b.cur then [] else b.cur ∷ []))
