-- ===== src/Shell/Quoting.antt =====
-- The quoting of the shell as an automaton of its own, independent of the scanners: which bytes of
-- a text stand outside quotes and behind no backslash.
use gosshd_bastion.Base.{ℕ, Bool, true, false, ◌&&◌, ◌||◌, [], ◌∷◌, ◌==◌, if◌then◌else◌, ◌≡◌}
use gosshd_bastion.Base.Bytes.{Bytes}

pub data Mode : Type 0 where
  plain in_single in_double esc_plain esc_double : Mode

abbrev pub next : Mode → ℕ → Mode
next plain c =
    if c == b'\\'
    then esc_plain
    else if c == 0x27
    then in_single
    else if c == b'"'
    then in_double
    else plain
next in_single c = if c == 0x27 then plain else in_single
next in_double c = if c == b'\\' then esc_double else if c == b'"' then plain else in_double
next esc_plain c = plain
next esc_double c = in_double

abbrev pub is_plain : Mode → Bool
is_plain plain = true
is_plain in_single = false
is_plain in_double = false
is_plain esc_plain = false
is_plain esc_double = false

-- The byte `b` stands in the text outside quotes.
abbrev pub active : ℕ → Mode → Bytes → Bool
active b m [] = false
active b m (c ∷ cs) = (is_plain m && c == b) || active b (next m c) cs

-- The scanners' variables `quote` and `escaped` in each mode.
abbrev pub Tracks : Mode → ℕ → Bool → Type 0
Tracks plain quote escaped = (quote ≡ 0) × (escaped ≡ false)
Tracks in_single quote escaped = (quote ≡ 0x27) × (escaped ≡ false)
Tracks in_double quote escaped = (quote ≡ b'"') × (escaped ≡ false)
Tracks esc_plain quote escaped = (quote ≡ 0) × (escaped ≡ true)
Tracks esc_double quote escaped = (quote ≡ b'"') × (escaped ≡ true)
