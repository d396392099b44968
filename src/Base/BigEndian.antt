-- ===== src/Base/BigEndian.antt =====
-- `encoding/binary`: big-endian numbers of a fixed count of bytes, and `io.ReadFull` on the bytes
-- that a reader still has to give.
use gosshd_bastion.Base.Lists.{length, length-append, take, drop, take-append, drop-append}
use gosshd_bastion.Base.Tests.{ltb, if◌then◌else◌, le→ltb}
use gosshd_bastion.Base.Bytes.{Bytes, codes}
use gosshd_bastion.Base.Result.{Result, ok, err}
use Prim.Native.Nat.{ℕ, zero, suc, ◌+◌, ◌*◌, ◌/◌, ◌%◌, ◌^◌, ◌<◌}
use mathlib.Core.Path.{◌≡◌, refl, ap, ap₂, ◌∙◌}
use mathlib.Core.List.{[], ◌∷◌, ◌++◌}
use native.Mathlib.Nat.{pow-suc}
use native.Mathlib.Omega.{arith}

abbrev pub IsByte : ℕ → Type 0
IsByte b = b < 256

-- `binary.BigEndian.PutUint16`, `PutUint32` and `PutUint64` at 2, 4 and 8 bytes.
unfoldable pub put_be : ℕ → ℕ → Bytes
put_be zero v = []
put_be (suc k) v = put_be k (v / 256) ++ (v % 256) ∷ []

get_from : ℕ → Bytes → ℕ
get_from acc [] = acc
get_from acc (b ∷ bs) = get_from (acc * 256 + b) bs

-- `binary.BigEndian.Uint16`, `Uint32` and `Uint64`.
unfoldable pub get_be : Bytes → ℕ
unfolding get_from
get_be bs = get_from 0 bs

pub length-put_be : (k v : ℕ) → length (put_be k v) ≡ k
unfolding put_be
length-put_be zero v = refl
length-put_be (suc k) v =
    length-append (put_be k (v / 256)) ((v % 256) ∷ []) ∙ omega (arith, length-put_be k (v / 256))

get_from-append :
    (acc : ℕ) (xs ys : Bytes) → get_from acc (xs ++ ys) ≡ get_from (get_from acc xs) ys
unfolding get_from
get_from-append acc [] ys = refl
get_from-append acc (x ∷ xs) ys = get_from-append (acc * 256 + x) xs ys

get_from-put_be : (k v acc : ℕ) → v < 256 ^ k → get_from acc (put_be k v) ≡ acc * 256 ^ k + v
unfolding put_be get_from
get_from-put_be zero v acc h = omega arith
get_from-put_be (suc k) v acc h =
    let small : v / 256 < 256 ^ k = omega (arith, pow-suc 256 k) in
    get_from-append acc (put_be k (v / 256)) ((v % 256) ∷ [])
    ∙ ap (λ (t : ℕ). t * 256 + v % 256) (get_from-put_be k (v / 256) acc small)
    ∙ omega (arith, ap (λ (t : ℕ). acc * t) (pow-suc 256 k))

-- What was written is read back.
pub get_be-put_be : (k v : ℕ) → v < 256 ^ k → get_be (put_be k v) ≡ v
unfolding get_be
get_be-put_be k v h = get_from-put_be k v 0 h ∙ omega arith

-- `io.ReadFull` of `n` bytes; the errors `EOF` and `ErrUnexpectedEOF` are one.
unfoldable pub read_full : ℕ → Bytes → Result (Bytes × Bytes)
read_full n s = if ltb (length s) n then err (codes "EOF") else ok (take n s, drop n s)

pub read_full-append :
    (n : ℕ) (xs ys : Bytes) → length xs ≡ n → read_full n (xs ++ ys) ≡ ok (xs, ys)
unfolding read_full
read_full-append n xs ys h = rw (← h) (
    rw (le→ltb (length (xs ++ ys)) (length xs) (omega (arith, length-append xs ys)))
      (ap₂ (λ (a b : Bytes). ok (a, b)) (take-append xs ys) (drop-append xs ys)))
