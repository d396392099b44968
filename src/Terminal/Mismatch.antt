-- ===== src/Terminal/Mismatch.antt =====
-- A beginning of a mark that does not go on as one: it goes to the clean text.
use gosshd_bastion.Base.{ℕ, false, [], ◌∷◌, ◌++◌, ◌==◌, take, ◌≡◌, refl, ap, ◌∙◌, arith}
use gosshd_bastion.Base.Bytes.{Bytes, has_prefix}
use gosshd_bastion.Terminal.Integration.{escape, intro}
use gosshd_bastion.Terminal.Marks.{consume_all}
use gosshd_bastion.Terminal.Skip.{prepend, skip}

pub mismatch0 :
    (x : ℕ) (s : Bytes)
    → (x == escape) ≡ false
    → consume_all (x ∷ s) ≡ prepend (x ∷ []) (consume_all s)
unfolding has_prefix
mismatch0 x s h = skip x s (ground arith) (ground arith)

pub mismatch1 :
    (x : ℕ) (s : Bytes)
    → (x == b']') ≡ false
    → consume_all (take 1 intro ++ x ∷ s) ≡ prepend (take 1 intro) (consume_all (x ∷ s))
unfolding has_prefix
mismatch1 x s h = skip escape (x ∷ s) (ground arith) (ground arith)

pub mismatch2 :
    (x : ℕ) (s : Bytes)
    → (x == b'6') ≡ false
    → consume_all (take 2 intro ++ x ∷ s) ≡ prepend (take 2 intro) (consume_all (x ∷ s))
unfolding has_prefix
mismatch2 x s h =
    skip escape (b']' ∷ x ∷ s) (ground arith) (ground arith)
    ∙ ap (prepend (escape ∷ [])) (skip b']' (x ∷ s) refl refl)

pub mismatch3 :
    (x : ℕ) (s : Bytes)
    → (x == b'3') ≡ false
    → consume_all (take 3 intro ++ x ∷ s) ≡ prepend (take 3 intro) (consume_all (x ∷ s))
unfolding has_prefix
mismatch3 x s h =
    skip escape (b']' ∷ b'6' ∷ x ∷ s) (ground arith) (ground arith)
    ∙ ap (prepend (escape ∷ [])) (skip b']' (b'6' ∷ x ∷ s) refl refl)
    ∙ ap (prepend (escape ∷ b']' ∷ [])) (skip b'6' (x ∷ s) refl refl)

pub mismatch4 :
    (x : ℕ) (s : Bytes)
    → (x == b'3') ≡ false
    → consume_all (take 4 intro ++ x ∷ s) ≡ prepend (take 4 intro) (consume_all (x ∷ s))
unfolding has_prefix
mismatch4 x s h =
    skip escape (b']' ∷ b'6' ∷ b'3' ∷ x ∷ s) (ground arith) (ground arith)
    ∙ ap (prepend (escape ∷ [])) (skip b']' (b'6' ∷ b'3' ∷ x ∷ s) refl refl)
    ∙ ap (prepend (escape ∷ b']' ∷ [])) (skip b'6' (b'3' ∷ x ∷ s) refl refl)
    ∙ ap (prepend (escape ∷ b']' ∷ b'6' ∷ [])) (skip b'3' (x ∷ s) refl refl)

pub mismatch5 :
    (x : ℕ) (s : Bytes)
    → (x == b';') ≡ false
    → consume_all (take 5 intro ++ x ∷ s) ≡ prepend (take 5 intro) (consume_all (x ∷ s))
unfolding has_prefix
mismatch5 x s h =
    skip escape (b']' ∷ b'6' ∷ b'3' ∷ b'3' ∷ x ∷ s) (ground arith) (ground arith)
    ∙ ap (prepend (escape ∷ [])) (skip b']' (b'6' ∷ b'3' ∷ b'3' ∷ x ∷ s) refl refl)
    ∙ ap (prepend (escape ∷ b']' ∷ [])) (skip b'6' (b'3' ∷ b'3' ∷ x ∷ s) refl refl)
    ∙ ap (prepend (escape ∷ b']' ∷ b'6' ∷ [])) (skip b'3' (b'3' ∷ x ∷ s) refl refl)
    ∙ ap (prepend (escape ∷ b']' ∷ b'6' ∷ b'3' ∷ [])) (skip b'3' (x ∷ s) refl refl)
