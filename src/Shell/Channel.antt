-- ===== src/Shell/Channel.antt =====
-- A command has a channel when a `|` stands outside quotes.
use gosshd_bastion.Base.{
  ℕ, true, false, ◌&&◌, ◌||◌, [], ◌∷◌, ◌==◌, ◌≡◌, ◌⊎◌, inl, inr, refl, arith, Bool-cases, ◌∙◌,
  subst,
}
use gosshd_bastion.Base.Bytes.{Bytes, trim_space}
use gosshd_bastion.Shell.{Scan, parts_step, parts_loop, starts_with, fresh, command_has_channel}
use gosshd_bastion.Shell.Quoting.{Mode, plain, next, is_plain, active, Tracks}

parts_step-Tracks :
    (m : Mode) (before : Bytes) (c : ℕ) (rest : Bytes) (s : Scan)
    → Tracks m s.quote s.escaped
    → s.skip ≡ false
    → Tracks (next m c) (parts_step before c rest s).quote (parts_step before c rest s).escaped
unfolding parts_step
parts_step-Tracks plain before c rest s t k = ground arith
parts_step-Tracks _ before c rest s t k = ground arith

parts_step_channel :
    (m : Mode) (before : Bytes) (c : ℕ) (rest : Bytes) (s : Scan)
    → Tracks m s.quote s.escaped
    → s.skip ≡ false
    → (parts_step before c rest s).channel ≡ (s.channel || (is_plain m && c == b'|'))
unfolding parts_step
parts_step_channel plain before c rest s t k = ground arith
parts_step_channel _ before c rest s t k = ground arith

-- What a skipped byte is: the second one of `||` or `&&`.
abbrev SkipsDouble : Mode → Bytes → Scan → Type 0
SkipsDouble m rest s =
    s.skip ≡ true
    → (m ≡ plain)
      × ((starts_with b'|' rest ≡ true) × (s.channel ≡ true) ⊎ (starts_with b'&' rest ≡ true))

parts_step-SkipsDouble :
    (m : Mode) (before : Bytes) (c : ℕ) (rest : Bytes) (s : Scan)
    → Tracks m s.quote s.escaped
    → s.skip ≡ false
    → SkipsDouble (next m c) rest (parts_step before c rest s)
unfolding parts_step
parts_step-SkipsDouble plain before c rest s t k = ground arith
parts_step-SkipsDouble _ before c rest s t k = ground arith

parts_loop_skip :
    (m : Mode) (before : Bytes) (c : ℕ) (rest : Bytes) (s : Scan)
    → Tracks m s.quote s.escaped
    → SkipsDouble m (c ∷ rest) s
    → s.skip ≡ true
    → (m ≡ plain)
      × (next m c ≡ plain)
      × (parts_step before c rest s ≡ record s { skip = false })
      × ((s.channel || (is_plain m && c == b'|')) ≡ s.channel)
unfolding parts_step
parts_loop_skip m before c rest s t d k = ground (arith, d k)

pub parts_loop_channel :
    (m : Mode) (before rest : Bytes) (s : Scan)
    → Tracks m s.quote s.escaped
    → SkipsDouble m rest s
    → (parts_loop before rest s).channel ≡ (s.channel || active b'|' m rest)
unfolding parts_loop
parts_loop_channel m before [] s t d = ground arith
parts_loop_channel m before (c ∷ rest) s t d = elim (Bool-cases s.skip) [
  | inl k ↦
      let (at, to, step, kept) = parts_loop_skip m before c rest s t d k in
      let resumed = record s { skip = false } in
      ground (
        arith,
        at,
        to,
        step,
        kept,
        parts_loop_channel plain (c ∷ before) rest resumed
            (subst (λ n. Tracks n s.quote s.escaped) at t) (λ e. cc),
      )
  | inr k ↦
      parts_loop_channel (next m c) (c ∷ before) rest (parts_step before c rest s)
        (parts_step-Tracks m before c rest s t k) (parts_step-SkipsDouble m before c rest s t k)
      ∙ ground (arith, parts_step_channel m before c rest s t k)
]

-- A command is taken to have a channel exactly when its text, with the white space around it taken
-- off, has a `|` outside quotes.
pub command_has_channel_exact :
    (command : Bytes) → command_has_channel command ≡ active b'|' plain (trim_space command)
unfolding command_has_channel
command_has_channel_exact command =
    ground (arith, parts_loop_channel plain [] (trim_space command) fresh (refl, refl) (λ e. cc))
