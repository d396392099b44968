-- ===== src/Base/Texts.antt =====
-- Further functions of the package `strings`, and sets of strings.
use Prim.Native.Nat.{ℕ}
use mathlib.Core.Bool.{Bool, false, ◌&&◌, ◌||◌}
use mathlib.Core.List.{List, [], ◌∷◌}
use gosshd_bastion.Base.Tests.{◌==◌, if◌then◌else◌}
use gosshd_bastion.Base.Lists.{drop, length, is_empty, any}
use gosshd_bastion.Base.Bytes.{Bytes, bytes_eq, has_prefix, has_byte}

-- `strings.HasSuffix(s, p)`, arguments in the order `p`, `s`.
unfoldable pub has_suffix : Bytes → Bytes → Bool
unfolding bytes_eq
has_suffix p [] = bytes_eq p []
has_suffix p (c ∷ cs) = bytes_eq p (c ∷ cs) || has_suffix p cs

-- `strings.TrimPrefix(s, p)`.
unfoldable pub trim_prefix : Bytes → Bytes → Bytes
unfolding has_prefix
trim_prefix p s = if has_prefix p s then drop (length p) s else s

-- `strings.TrimSuffix(s, b)` for one byte.
unfoldable pub trim_last : ℕ → Bytes → Bytes
trim_last b [] = []
trim_last b (c ∷ cs) = if is_empty cs && c == b then [] else c ∷ trim_last b cs

-- `strings.ContainsAny(s, bytes)`, arguments in the order `bytes`, `s`.
unfoldable pub contains_any : Bytes → Bytes → Bool
unfolding has_byte
contains_any bytes s = any (λ c. has_byte c bytes) s

-- Whether a set of strings, as a `map[string]bool` holds it, has this one.
unfoldable pub is_among : Bytes → List Bytes → Bool
unfolding bytes_eq
is_among s [] = false
is_among s (t ∷ ts) = bytes_eq t s || is_among s ts
