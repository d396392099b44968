-- ===== src/Shell/Tests.antt =====
-- Runs of the shell scanners on small commands, and the theorems at such commands.
use gosshd_bastion.Base.{arith, true, false, [], ◌∷◌, ◌++◌, ◌≡◌, refl}
use gosshd_bastion.Base.Bytes.{codes, trim_space, has_byte}
use gosshd_bastion.Shell.{
  command_segments, command_has_channel, shell_words, parts_loop, parts_step, flushed,
  is_redirection_ampersand, words_loop, words_step,
}
use gosshd_bastion.Shell.Names.{command_name_matches}
use gosshd_bastion.Shell.Redirect.{
  has_unsafe_redirection, unsafe_loop, unsafe_step, is_safe_target, redirection_target,
}
use gosshd_bastion.Shell.Quoting.{active, plain}
use gosshd_bastion.Shell.Channel.{command_has_channel_exact}
use gosshd_bastion.Shell.Unquote.{quoted_line, shell_words-quoted_line}
use gosshd_bastion.Shell.Unsafe.{
  no_redirection, first_redirection, descriptor_is_unsafe, quoted_null, quoted_null_hides,
}

segments_of_list :
    command_segments (codes " ls -l && cat 'a;b' 2>&1; x &")
    ≡ codes "ls -l" ∷ codes "cat 'a;b' 2>&1" ∷ codes "x" ∷ []
unfolding command_segments parts_loop parts_step flushed trim_space is_redirection_ampersand
segments_of_list = refl

name_behind_wrappers : command_name_matches (codes "a=1 sudo -n /bin/rm x") (codes "rm") ≡ true
unfolding command_name_matches command_segments parts_loop parts_step flushed trim_space shell_words
    words_loop words_step
name_behind_wrappers = refl

null_is_safe : has_unsafe_redirection (codes "ls > /dev/null") false ≡ false
unfolding has_unsafe_redirection unsafe_loop unsafe_step is_safe_target redirection_target
    trim_space
null_is_safe = refl

command_has_channel_exact_example :
    command_has_channel (codes " echo '|' | sh ")
    ≡ active b'|' plain (trim_space (codes " echo '|' | sh "))
command_has_channel_exact_example = command_has_channel_exact (codes " echo '|' | sh ")

shell_words-quoted_line_example :
    shell_words (quoted_line (codes "rm" ∷ codes "a;b" ∷ [])) ≡ codes "rm" ∷ codes "a;b" ∷ []
unfolding trim_space has_byte
shell_words-quoted_line_example = shell_words-quoted_line (codes "rm" ∷ codes "a;b" ∷ []) (
  record { quotable = refl; trimmed = refl; visible = refl },
  (record { quotable = refl; trimmed = refl; visible = refl }, tt),
)

no_redirection_example : has_unsafe_redirection (codes "echo '>' x") false ≡ false
no_redirection_example = no_redirection (codes "echo '>' x") false refl

first_redirection_example :
    has_unsafe_redirection (codes "ls 'a' " ++ b'>' ∷ codes "> log") false ≡ true
unfolding is_safe_target redirection_target trim_space
first_redirection_example = first_redirection (codes "ls 'a' ") (codes "> log") refl refl refl

descriptor_is_unsafe_example :
    has_unsafe_redirection (codes "ls 2" ++ b'>' ∷ b'&' ∷ codes "1") false ≡ true
descriptor_is_unsafe_example = descriptor_is_unsafe (codes "ls 2") (codes "1") refl refl

quoted_null_hides_example :
    has_unsafe_redirection
      (codes "ls " ++ b'>' ∷ (codes " " ++ (quoted_null ++ codes " > /etc/passwd")))
      false
    ≡ false
unfolding has_byte
quoted_null_hides_example =
    quoted_null_hides (codes "ls ") (codes " ") (codes " > /etc/passwd") refl refl refl
      (omega arith) refl refl refl
