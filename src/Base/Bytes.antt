-- ===== src/Base/Bytes.antt =====
-- Go strings and byte slices as lists of byte values, with the functions of the packages
-- `strings`, `strconv` and `bytes` that the program calls.
use Prim.Native.Char.{code}
use Prim.Native.String.{String}
use Prim.Native.Nat.{ℕ, zero, suc, ◌+◌, ◌-◌, ◌/◌, ◌%◌}
use mathlib.Core.Path.{◌≡◌, refl}
use mathlib.Core.Logic.{◌↔◌}
use mathlib.Core.Bool.{Bool, true, false, ◌&&◌, ◌||◌}
use mathlib.Core.Option.{Option, none, some}
use mathlib.Core.List.{List, [], ◌∷◌}
use native.Mathlib.Omega.{arith}
use gosshd_bastion.Base.Tests.{leb, ltb, ◌==◌, if◌then◌else◌}
use gosshd_bastion.Base.Lists.{is_empty}

abbrev pub Bytes : Type 0
Bytes = List ℕ

-- The bytes of an ASCII literal.
abbrev pub codes : String → Bytes
codes String.[] = []
codes (String.◌∷◌ c s) = code c ∷ codes s

-- `a == b` on strings.
unfoldable pub bytes_eq : Bytes → Bytes → Bool
bytes_eq [] [] = true
bytes_eq [] (y ∷ ys) = false
bytes_eq (x ∷ xs) [] = false
bytes_eq (x ∷ xs) (y ∷ ys) = x == y && bytes_eq xs ys

pub bytes_eq_iff : (a b : Bytes) → (bytes_eq a b ≡ true) ↔ (a ≡ b)
unfolding bytes_eq
bytes_eq_iff [] [] = ground arith
bytes_eq_iff [] (y ∷ ys) = ground arith
bytes_eq_iff (x ∷ xs) [] = ground arith
bytes_eq_iff (x ∷ xs) (y ∷ ys) = ground (arith, bytes_eq_iff xs ys)

pub bytes_eq_refl : (a : Bytes) → bytes_eq a a ≡ true
bytes_eq_refl a = (bytes_eq_iff a a).1 refl

-- `strings.HasPrefix(s, p)`, arguments in the order `p`, `s`.
unfoldable pub has_prefix : Bytes → Bytes → Bool
has_prefix [] s = true
has_prefix (p ∷ ps) [] = false
has_prefix (p ∷ ps) (c ∷ cs) = p == c && has_prefix ps cs

-- `strings.Contains(s, p)`, arguments in the order `p`, `s`.
unfoldable pub contains : Bytes → Bytes → Bool
unfolding has_prefix
contains p [] = is_empty p
contains p (c ∷ cs) = has_prefix p (c ∷ cs) || contains p cs

-- `strings.ContainsAny` and `strings.IndexByte(s, c) >= 0` for one byte.
unfoldable pub has_byte : ℕ → Bytes → Bool
has_byte b [] = false
has_byte b (c ∷ cs) = c == b || has_byte b cs

-- The bytes before and behind the first `b`, or `none`: `strings.Cut`, `strings.IndexByte`.
unfoldable pub cut : ℕ → Bytes → Option (Bytes × Bytes)
cut b [] = none
cut b (c ∷ cs) =
    if c == b
    then some ([], cs)
    else elim (cut b cs) [ none ↦ none | some (before, after) ↦ some (c ∷ before, after) ]

abbrev pub is_blank : ℕ → Bool
is_blank c = c == b' ' || c == b'\t'

-- `unicode.IsSpace` on an ASCII byte.
abbrev pub is_ascii_space : ℕ → Bool
is_ascii_space c = c == b' ' || (leb 9 c && leb c 13)

-- The two other bytes of a white space character that begins with 0xE1, 0xE2 or 0xE3.
abbrev is_wide_space : ℕ → ℕ → ℕ → Bool
is_wide_space a b c =
    (a == 0xe1 && b == 0x9a && c == 0x80)
    || (a == 0xe2 && b == 0x80 && (leb 0x80 c && leb c 0x8a))
    || (a == 0xe2 && b == 0x80 && (c == 0xa8 || c == 0xa9 || c == 0xaf))
    || (a == 0xe2 && b == 0x81 && c == 0x9f)
    || (a == 0xe3 && b == 0x80 && c == 0x80)

-- The number of bytes of the white space character in front, 0 if there is none. The flag says
-- that the text is read backwards.
space_width : Bool → Bytes → ℕ
space_width back [] = 0
space_width back (a ∷ []) = if is_ascii_space a then 1 else 0
space_width back (a ∷ b ∷ []) =
    if is_ascii_space a
    then 1
    else if (if back
        then b == 0xc2 && (a == 0x85 || a == 0xa0)
        else a == 0xc2 && (b == 0x85 || b == 0xa0))
    then 2
    else 0
space_width back (a ∷ b ∷ c ∷ s) =
    if is_ascii_space a
    then 1
    else if (if back
        then b == 0xc2 && (a == 0x85 || a == 0xa0)
        else a == 0xc2 && (b == 0x85 || b == 0xa0))
    then 2
    else if (if back then is_wide_space c b a else is_wide_space a b c)
    then 3
    else 0

-- A round takes a byte at least, so `length s` rounds are enough; `n` is the rest of a character
-- that is being dropped.
trim_front : Bool → ℕ → Bytes → Bytes
trim_front back n [] = []
trim_front back (suc n) (c ∷ cs) = trim_front back n cs
trim_front back zero (c ∷ cs) =
    let w = space_width back (c ∷ cs) in
    let rest = trim_front back (w - 1) cs in if w == 0 then c ∷ cs else rest

onto : Bytes → Bytes → Bytes
onto [] acc = acc
onto (c ∷ cs) acc = onto cs (c ∷ acc)

-- `strings.TrimSpace`.
unfoldable pub trim_space : Bytes → Bytes
unfolding trim_front space_width onto
trim_space s = onto (trim_front true 0 (onto (trim_front false 0 s) [])) []

-- `strings.TrimLeft(s, " \t")`.
unfoldable pub trim_blanks : Bytes → Bytes
trim_blanks [] = []
trim_blanks (c ∷ cs) = if is_blank c then trim_blanks cs else c ∷ cs

-- `strings.TrimRight(s, "/")`.
unfoldable pub trim_slashes : Bytes → Bytes
trim_slashes [] = []
trim_slashes (c ∷ cs) =
    let rest = trim_slashes cs in if c == b'/' && is_empty rest then [] else c ∷ rest

-- `strings.ToLower` for a comparison with a text of lower-case ASCII letters: A to Z, and the two
-- other characters whose lower case is ASCII, U+0130 (i) and U+212A (k). All else stays.
abbrev lower_skip : ℕ → Bytes → ℕ
lower_skip c cs =
    if c == 0xc4 && has_prefix (0xb0 ∷ []) cs
    then 1
    else if c == 0xe2 && has_prefix (0x84 ∷ 0xaa ∷ []) cs
    then 2
    else 0

abbrev lower_byte : ℕ → ℕ → ℕ
lower_byte zero c = if leb b'A' c && leb c b'Z' then c + 32 else c
lower_byte (suc zero) c = b'i'
lower_byte (suc (suc _)) c = b'k'

lower_front : ℕ → Bytes → Bytes
unfolding has_prefix
lower_front n [] = []
lower_front (suc n) (c ∷ cs) = lower_front n cs
lower_front zero (c ∷ cs) = lower_byte (lower_skip c cs) c ∷ lower_front (lower_skip c cs) cs

unfoldable pub to_lower : Bytes → Bytes
unfolding lower_front
to_lower s = lower_front 0 s

-- `strconv.Itoa` of a number that is not negative; a number has no more digits than its value plus 1.
itoa_digits : ℕ → ℕ → Bytes → Bytes
itoa_digits zero n acc = acc
itoa_digits (suc fuel) n acc =
    let rest = itoa_digits fuel (n / 10) ((b'0' + n % 10) ∷ acc) in
    if ltb n 10 then (b'0' + n) ∷ acc else rest

unfoldable pub itoa : ℕ → Bytes
unfolding itoa_digits
itoa n = itoa_digits (n + 1) n []

trim_space_ascii : trim_space (codes " \t ls -l \n") ≡ codes "ls -l"
unfolding trim_space
trim_space_ascii = refl

itoa_runs : itoa 1207 ≡ codes "1207"
unfolding itoa
itoa_runs = refl
