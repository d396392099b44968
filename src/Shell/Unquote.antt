-- ===== src/Shell/Unquote.antt =====
-- `shellWords` undoes single quotes.
use gosshd_bastion.Base.{
  false, List, [], ◌∷◌, ◌++◌, ◌≡◌, refl, arith, ◌∙◌, ap, All, append-nil, append_assoc, is_empty,
}
use gosshd_bastion.Base.Bytes.{Bytes, trim_space, has_byte}
use gosshd_bastion.Shell.{Words, words_step, words_loop, shell_words, flushed}

-- Each word in single quotes, with a blank behind it.
abbrev pub quoted_line : List Bytes → Bytes
quoted_line [] = []
quoted_line (w ∷ ws) = 0x27 ∷ (w ++ (0x27 ∷ b' ' ∷ quoted_line ws))

-- A word that single quotes can hold: no such quote in it, not empty, no white space around it.
pub record IsWord (w : Bytes) : Type 0 where
  pub quotable : has_byte 0x27 w ≡ false
  pub trimmed : trim_space w ≡ w
  pub visible : is_empty w ≡ false

pub flushed_visible : (w : Bytes) → trim_space w ≡ w → is_empty w ≡ false → flushed w ≡ w ∷ []
unfolding flushed
flushed_visible w t v = rw (t, v)

words_loop_inside :
    (w rest : Bytes) (s : Words)
    → s.quote ≡ 0x27
    → s.escaped ≡ false
    → has_byte 0x27 w ≡ false
    → words_loop (w ++ rest) s ≡ words_loop rest (record s { current = s.current ++ w })
unfolding words_loop has_byte
words_loop_inside [] rest s q e h = rw append-nil
words_loop_inside (c ∷ w) rest s q e h =
    let s' = record s { current = s.current ++ c ∷ [] } in
    let step : words_step c s ≡ s' = unfold words_step in ground arith in
    ap (words_loop (w ++ rest)) step
    ∙ words_loop_inside w rest s' q e (ground arith)
    ∙ rw append_assoc

abbrev idle : List Bytes → Words
idle ws = record { words = ws; current = []; quote = 0; escaped = false }

words_loop-quoted_line :
    (ws done : List Bytes)
    → All IsWord ws
    → words_loop (quoted_line ws) (idle done) ≡ idle (done ++ ws)
unfolding words_loop words_step
words_loop-quoted_line [] done h = rw append-nil
words_loop-quoted_line (w ∷ ws) done (hw, hs) =
    let rest = 0x27 ∷ b' ' ∷ quoted_line ws in
    words_loop_inside w rest (record { words = done; current = []; quote = 0x27; escaped = false })
      refl refl hw.quotable
    ∙ ap (λ (p : List Bytes). words_loop (quoted_line ws) (idle (done ++ p)))
        (flushed_visible w hw.trimmed hw.visible)
    ∙ words_loop-quoted_line ws (done ++ w ∷ []) hs
    ∙ rw append_assoc

-- The words of a line of words in single quotes, with a blank behind each, are these words,
-- whatever operators they hold, if each is nonempty, holds no single quote and has no white space
-- around it.
pub shell_words-quoted_line : (ws : List Bytes) → All IsWord ws → shell_words (quoted_line ws) ≡ ws
unfolding shell_words
shell_words-quoted_line ws h =
    rw (words_loop-quoted_line ws [] h) (unfold flushed trim_space in rw append-nil)
