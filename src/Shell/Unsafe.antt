-- ===== src/Shell/Unsafe.antt =====
-- What the search for output redirections finds.
use gosshd_bastion.Base.{
  ℕ, Bool, true, false, [], ◌∷◌, ◌++◌, ◌-◌, ◌≤◌, length, zero, suc, ◌≡◌, refl, arith, ◌∙◌, ap,
  subst, append-nil, if◌then◌else◌, drop,
}
use gosshd_bastion.Base.Bytes.{Bytes, codes, trim_space, has_byte}
use gosshd_bastion.Shell.{starts_with}
use gosshd_bastion.Shell.Quoting.{plain, active}
use gosshd_bastion.Shell.Redirect.{
  Search, unsafe_step, unsafe_loop, searching, has_unsafe_redirection, redirection_target,
  is_safe_target, target_loop, Target,
}
use gosshd_bastion.Shell.Passing.{
  Ready, all_blank, all_blank-quiet, at_skip, ends_target, mode_after, target_loop-ends,
  target_loop_done, trim_blanks-append, unsafe_loop-append, unsafe_loop-quiet, unsafe_loop_found,
  unsafe_loop_in_double, unsafe_step-skips,
}

-- A command with no `>` outside quotes has no unsafe redirection, for the pattern `>` and for `>>`.
pub no_redirection :
    (command : Bytes) (append_only : Bool)
    → active b'>' plain command ≡ false
    → has_unsafe_redirection command append_only ≡ false
unfolding has_unsafe_redirection unsafe_loop
no_redirection command append_only h =
    let (s, e, r) =
      unsafe_loop-append command [] plain append_only searching ((refl, refl), refl, refl) h in
    ap (λ (t : Search). t.found)
      (subst (λ x. unsafe_loop append_only x searching ≡ s) (append-nil command) e)
    ∙ r.2

-- The text behind the operator at a `>` that `post` follows.
abbrev pub behind_operator : Bytes → Bytes
behind_operator post = if starts_with b'>' post then drop 1 post else post

unsafe_step_hit :
    (post : Bytes) (s : Search)
    → Ready plain s
    → is_safe_target (redirection_target (behind_operator post)) ≡ false
    → (unsafe_step false b'>' post s).found ≡ true
unfolding unsafe_step
unsafe_step_hit post s r h = ground arith

-- The first `>` outside quotes decides: if its target is not a safe one, the command has an unsafe
-- redirection for the pattern `>`.
pub first_redirection :
    (pre post : Bytes)
    → active b'>' plain pre ≡ false
    → mode_after plain pre ≡ plain
    → is_safe_target (redirection_target (behind_operator post)) ≡ false
    → has_unsafe_redirection (pre ++ b'>' ∷ post) false ≡ true
unfolding has_unsafe_redirection unsafe_loop
first_redirection pre post h m t =
    let (s, e, r) =
      unsafe_loop-append pre (b'>' ∷ post) plain false searching ((refl, refl), refl, refl) h in
    let hit = unsafe_step_hit post s (rw m at r) t in
    ap (λ (t : Search). t.found)
      (e ∙ unsafe_loop_found false post (unsafe_step false b'>' post s) hit)
    ∙ hit

redirection_target_ampersand : (rest : Bytes) → redirection_target (b'&' ∷ rest) ≡ []
unfolding redirection_target
redirection_target_ampersand rest =
    rw (target_loop_done rest (record { out = []; quote = 0; escaped = false; done = true }) refl)

-- If the first `>` outside quotes in a command is a `>&`, the command has an unsafe redirection, whatever comes behind: the target is read as empty. So `2>&1`
-- counts as one, though `isSafeRedirectionTarget` names `&1` and `&2`.
pub descriptor_is_unsafe :
    (pre rest : Bytes)
    → active b'>' plain pre ≡ false
    → mode_after plain pre ≡ plain
    → has_unsafe_redirection (pre ++ b'>' ∷ b'&' ∷ rest) false ≡ true
descriptor_is_unsafe pre rest h m =
    first_redirection pre (b'&' ∷ rest) h m
      (rw (redirection_target_ampersand rest) (unfold is_safe_target trim_space in refl))

abbrev pub quoted_null : Bytes
quoted_null = codes "\"/dev/null\""

redirection_target-quoted_null :
    (blanks rest : Bytes)
    → all_blank blanks ≡ true
    → ends_target rest ≡ true
    → redirection_target (blanks ++ (quoted_null ++ rest)) ≡ codes "/dev/null"
unfolding redirection_target
redirection_target-quoted_null blanks rest h e =
    let read : Target = record {
      out = codes "/dev/null";
      quote = 0;
      escaped = false;
      done = false;
    } in
    let start : Target = record { out = []; quote = 0; escaped = false; done = false } in
    ap (λ (raw : Bytes). trim_space (target_loop raw start).out)
      (trim_blanks-append blanks (quoted_null ++ rest) h)
    ∙ ap trim_space (target_loop-ends rest read e (refl, refl, refl))
    ∙ unfold trim_space in refl

-- If one to nine bytes are to be skipped, the first quote of the target is, and the second one opens.
resume_in_quote :
    (n : ℕ) (rest : Bytes)
    → 1 ≤ n
    → n ≤ 9
    → unsafe_loop false (quoted_null ++ rest) (at_skip n)
      ≡ unsafe_loop false rest (record searching { quote = b'"' })
unfolding unsafe_loop unsafe_step
resume_in_quote zero rest lo hi = absurd (omega arith)
resume_in_quote (suc n) rest lo hi =
    let quiet = codes "/dev/null" in
    let used : n - 9 ≡ 0 = omega arith in
    ap (unsafe_loop false (quiet ++ b'"' ∷ rest)) (unsafe_step-skips b'"' n (quiet ++ b'"' ∷ rest))
    ∙ unsafe_loop-quiet quiet (b'"' ∷ rest) n refl
    ∙ ap (λ (m : ℕ). unsafe_loop false (b'"' ∷ rest) (at_skip m)) used

Ready-searching : (s : Search) → Ready plain s → s ≡ searching
Ready-searching s r = ground arith

starts_with-blanks :
    (blanks rest : Bytes)
    → all_blank blanks ≡ true
    → starts_with b'>' (blanks ++ (quoted_null ++ rest)) ≡ false
starts_with-blanks [] rest h = refl
starts_with-blanks (c ∷ blanks) rest h = ground arith

unsafe_step-quoted_null :
    (blanks rest : Bytes)
    → all_blank blanks ≡ true
    → ends_target rest ≡ true
    → unsafe_step false b'>' (blanks ++ (quoted_null ++ rest)) searching ≡ at_skip 9
unfolding unsafe_step
unsafe_step-quoted_null blanks rest h e =
    rw (starts_with-blanks blanks rest h, redirection_target-quoted_null blanks rest h e)
      (unfold is_safe_target trim_space in refl)

-- Behind a redirection to "/dev/null" in double quotes no redirection is seen, to whatever file it
-- goes: if the `>` is the first one outside quotes, up to eight blanks come between it and the quoted
-- text, a blank, `;`, `|`, `&` or nothing follows this, and the rest has no double quote and no
-- backslash, the command has no unsafe redirection for the pattern `>`.
pub quoted_null_hides :
    (pre blanks rest : Bytes)
    → active b'>' plain pre ≡ false
    → mode_after plain pre ≡ plain
    → all_blank blanks ≡ true
    → length blanks ≤ 8
    → ends_target rest ≡ true
    → has_byte b'"' rest ≡ false
    → has_byte b'\\' rest ≡ false
    → has_unsafe_redirection (pre ++ b'>' ∷ (blanks ++ (quoted_null ++ rest))) false ≡ false
unfolding has_unsafe_redirection unsafe_loop
quoted_null_hides pre blanks rest h m b le e q s =
    let post = blanks ++ (quoted_null ++ rest) in
    let opened = record searching { quote = b'"' } in
    let (s', read, r) =
      unsafe_loop-append pre (b'>' ∷ post) plain false searching ((refl, refl), refl, refl) h in
    let same = Ready-searching s' (rw m at r) in
    ap (λ (t : Search). t.found)
      (read
        ∙ ap (λ (t : Search). unsafe_loop false post (unsafe_step false b'>' post t)) same
        ∙ ap (unsafe_loop false post) (unsafe_step-quoted_null blanks rest b e)
        ∙ unsafe_loop-quiet blanks (quoted_null ++ rest) 9 (all_blank-quiet blanks b)
        ∙ resume_in_quote (9 - length blanks) rest (omega (arith, le)) (omega arith)
        ∙ unsafe_loop_in_double rest opened ((refl, refl), refl, refl) q s)
