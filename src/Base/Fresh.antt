-- ===== src/Base/Fresh.antt =====
-- Lists of texts that are distinct, and differ from given ones.
use mathlib.Core.Path.{◌≡◌}
use mathlib.Core.Bool.{false}
use mathlib.Core.List.{List, [], ◌∷◌, ◌++◌}
use native.Mathlib.Omega.{arith}
use gosshd_bastion.Base.Bytes.{Bytes}
use gosshd_bastion.Base.Texts.{is_among}

-- Each text differs from those before it and from the given ones.
abbrev pub AreFresh : List Bytes → List Bytes → Type 0
AreFresh [] old = Unit
AreFresh (x ∷ xs) old = (is_among x old ≡ false) × AreFresh xs (x ∷ old)

abbrev pub with_ids : List Bytes → List Bytes → List Bytes
with_ids [] old = old
with_ids (x ∷ xs) old = with_ids xs (x ∷ old)

pub AreFresh-append :
    (xs ys old : List Bytes)
    → AreFresh xs old
    → AreFresh ys (with_ids xs old)
    → AreFresh (xs ++ ys) old
AreFresh-append [] ys old hx hy = hy
AreFresh-append (x ∷ xs) ys old (h, hx) hy = (h, AreFresh-append xs ys (x ∷ old) hx hy)

pub AreFresh-split :
    (xs ys old : List Bytes)
    → AreFresh (xs ++ ys) old
    → AreFresh xs old × AreFresh ys (with_ids xs old)
AreFresh-split [] ys old h = (tt, h)
AreFresh-split (x ∷ xs) ys old (h, hs) =
    let (hx, hy) = AreFresh-split xs ys (x ∷ old) hs in ((h, hx), hy)

-- Whatever is not in the second list is not in the first.
abbrev pub IsPart : List Bytes → List Bytes → Type 0
IsPart small big = (x : Bytes) → is_among x big ≡ false → is_among x small ≡ false

pub IsPart-add : (y : Bytes) (old : List Bytes) → IsPart old (y ∷ old)
unfolding is_among
IsPart-add y old x h = ground arith

pub IsPart-cons :
    (y : Bytes) (small big : List Bytes) → IsPart small big → IsPart (y ∷ small) (y ∷ big)
unfolding is_among
IsPart-cons y small big part x h = ground (arith, part x)

pub IsPart-with_ids : (xs old : List Bytes) → IsPart old (with_ids xs old)
IsPart-with_ids [] old x h = h
IsPart-with_ids (y ∷ xs) old x h = IsPart-add y old x (IsPart-with_ids xs (y ∷ old) x h)

pub AreFresh-IsPart :
    (xs small big : List Bytes) → IsPart small big → AreFresh xs big → AreFresh xs small
AreFresh-IsPart [] small big part h = tt
AreFresh-IsPart (x ∷ xs) small big part (h, hs) =
    (part x h, AreFresh-IsPart xs (x ∷ small) (x ∷ big) (IsPart-cons x small big part) hs)

-- The texts in front may be left out.
pub AreFresh-after : (xs ys old : List Bytes) → AreFresh (xs ++ ys) old → AreFresh ys old
AreFresh-after xs ys old h =
    AreFresh-IsPart ys old (with_ids xs old) (IsPart-with_ids xs old) (AreFresh-split xs ys old h).1

-- And one in the middle.
pub AreFresh-without :
    (xs : List Bytes) (y : Bytes) (ys old : List Bytes)
    → AreFresh (xs ++ y ∷ ys) old
    → AreFresh (xs ++ ys) old
AreFresh-without xs y ys old h =
    let (hx, hy) = AreFresh-split xs (y ∷ ys) old h in
    AreFresh-append xs ys old hx (
      AreFresh-IsPart ys (with_ids xs old) (y ∷ with_ids xs old) (IsPart-add y (with_ids xs old))
        hy.1)
