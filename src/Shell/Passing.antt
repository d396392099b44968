-- ===== src/Shell/Passing.antt =====
-- How the search for output redirections reads through a text.
use gosshd_bastion.Base.{
  ℕ, Bool, true, false, ◌&&◌, ◌||◌, [], ◌∷◌, ◌++◌, ◌==◌, ◌-◌, every, not, length, suc, ◌≡◌, refl,
  arith, ◌∙◌, ap,
}
use gosshd_bastion.Base.Bytes.{Bytes, trim_blanks, has_byte}
use gosshd_bastion.Shell.Quoting.{Mode, plain, in_double, next, is_plain, active, Tracks}
use gosshd_bastion.Shell.Redirect.{
  Search, unsafe_step, unsafe_loop, target_loop, target_step, Target,
}

abbrev pub mode_after : Mode → Bytes → Mode
mode_after m [] = m
mode_after m (c ∷ cs) = mode_after (next m c) cs

-- Nothing is found or passed over yet, and the quoting is as the automaton has it.
abbrev pub Ready : Mode → Search → Type 0
Ready m s = Tracks m s.quote s.escaped × (s.skip ≡ 0) × (s.found ≡ false)

pub unsafe_step-Ready :
    (m : Mode) (append_only : Bool) (c : ℕ) (rest : Bytes) (s : Search)
    → Ready m s
    → (is_plain m && c == b'>') ≡ false
    → Ready (next m c) (unsafe_step append_only c rest s)
unfolding unsafe_step
unsafe_step-Ready plain append_only c rest s r h = ground arith
unsafe_step-Ready _ append_only c rest s r h = ground arith

-- Text with no `>` outside quotes is read through.
pub unsafe_loop-append :
    (pre post : Bytes) (m : Mode) (append_only : Bool) (s : Search)
    → Ready m s
    → active b'>' m pre ≡ false
    → (s' : Search) × (unsafe_loop append_only (pre ++ post) s ≡ unsafe_loop append_only post s')
      × Ready (mode_after m pre) s'
unfolding unsafe_loop
unsafe_loop-append [] post m append_only s r h = (s, refl, r)
unsafe_loop-append (c ∷ pre) post m append_only s r h =
    unsafe_loop-append pre post (next m c) append_only (unsafe_step append_only c (pre ++ post) s)
      (unsafe_step-Ready m append_only c (pre ++ post) s r (ground arith)) (ground arith)

pub unsafe_loop_found :
    (append_only : Bool) (rest : Bytes) (s : Search)
    → s.found ≡ true
    → unsafe_loop append_only rest s ≡ s
unfolding unsafe_loop
unsafe_loop_found append_only [] s h = refl
unsafe_loop_found append_only (c ∷ rest) s h =
    let stay : unsafe_step append_only c rest s ≡ s = unfold unsafe_step in ground arith in
    ap (unsafe_loop append_only rest) stay ∙ unsafe_loop_found append_only rest s h

pub target_loop_done : (rest : Bytes) (s : Target) → s.done ≡ true → target_loop rest s ≡ s
unfolding target_loop
target_loop_done [] s h = refl
target_loop_done (c ∷ rest) s h =
    let stay : target_step c s ≡ s = unfold target_step in ground arith in
    ap (target_loop rest) stay ∙ target_loop_done rest s h

-- A target ends in front of this text.
abbrev pub ends_target : Bytes → Bool
ends_target [] = true
ends_target (c ∷ rest) = c == b' ' || c == b'\t' || c == b';' || c == b'|' || c == b'&'

abbrev pub all_blank : Bytes → Bool
all_blank [] = true
all_blank (c ∷ rest) = (c == b' ' || c == b'\t') && all_blank rest

pub trim_blanks-append :
    (blanks post : Bytes)
    → all_blank blanks ≡ true
    → trim_blanks (blanks ++ post) ≡ trim_blanks post
unfolding trim_blanks
trim_blanks-append [] post h = refl
trim_blanks-append (c ∷ blanks) post h = ground (arith, trim_blanks-append blanks post)

pub target_loop-ends :
    (rest : Bytes) (s : Target)
    → ends_target rest ≡ true
    → (s.quote ≡ 0) × (s.escaped ≡ false) × (s.done ≡ false)
    → (target_loop rest s).out ≡ s.out
unfolding target_loop
target_loop-ends [] s h p = refl
target_loop-ends (c ∷ rest) s h p =
    let stop : target_step c s ≡ record s { done = true } = unfold target_step in ground arith in
    ap (λ (t : Target). (target_loop rest t).out) stop
    ∙ ap (λ (t : Target). t.out) (target_loop_done rest (record s { done = true }) refl)

abbrev pub is_quiet : ℕ → Bool
is_quiet c = not (c == b'>' || c == b'"' || c == 0x27 || c == b'\\')

abbrev pub at_skip : ℕ → Search
at_skip n = record { quote = 0; escaped = false; skip = n; found = false }

-- Bytes that stand for nothing: they only use up what is to skip.
pub unsafe_step-quiet :
    (c n : ℕ) (rest : Bytes)
    → is_quiet c ≡ true
    → unsafe_step false c rest (at_skip n) ≡ at_skip (n - 1)
unfolding unsafe_step
unsafe_step-quiet c n rest h = ground arith

pub unsafe_loop-quiet :
    (quiet post : Bytes) (n : ℕ)
    → every is_quiet quiet ≡ true
    → unsafe_loop false (quiet ++ post) (at_skip n)
      ≡ unsafe_loop false post (at_skip (n - length quiet))
unfolding unsafe_loop
unsafe_loop-quiet [] post n h = ap (λ (m : ℕ). unsafe_loop false post (at_skip m)) (omega arith)
unsafe_loop-quiet (c ∷ quiet) post n h =
    ap (unsafe_loop false (quiet ++ post)) (unsafe_step-quiet c n (quiet ++ post) (ground arith))
    ∙ unsafe_loop-quiet quiet post (n - 1) (ground arith)
    ∙ ap (λ (m : ℕ). unsafe_loop false post (at_skip m)) (omega arith)

pub all_blank-quiet : (blanks : Bytes) → all_blank blanks ≡ true → every is_quiet blanks ≡ true
all_blank-quiet [] h = refl
all_blank-quiet (c ∷ blanks) h = ground (arith, all_blank-quiet blanks)

pub unsafe_step_in_double :
    (c : ℕ) (rest : Bytes) (s : Search)
    → Ready in_double s
    → (c == b'"' || c == b'\\') ≡ false
    → unsafe_step false c rest s ≡ s
unfolding unsafe_step
unsafe_step_in_double c rest s r h = ground arith

pub unsafe_loop_in_double :
    (rest : Bytes) (s : Search)
    → Ready in_double s
    → has_byte b'"' rest ≡ false
    → has_byte b'\\' rest ≡ false
    → unsafe_loop false rest s ≡ s
unfolding unsafe_loop has_byte
unsafe_loop_in_double [] s r q e = refl
unsafe_loop_in_double (c ∷ rest) s r q e =
    ap (unsafe_loop false rest) (unsafe_step_in_double c rest s r (ground arith))
    ∙ unsafe_loop_in_double rest s r (ground arith) (ground arith)

pub unsafe_step-skips :
    (c n : ℕ) (rest : Bytes) → unsafe_step false c rest (at_skip (suc n)) ≡ at_skip n
unfolding unsafe_step
unsafe_step-skips c n rest = ground arith
