-- ===== src/Terminal/Tests.antt =====
-- Runs of a terminal session, and the theorems at concrete inputs.
use gosshd_bastion.Base.{ℕ, true, false, List, [], ◌∷◌, ◌++◌, none, ◌≡◌, refl, arith, take}
use gosshd_bastion.Base.Bytes.{Bytes, codes}
use gosshd_bastion.Base.Texts.{contains_any}
use gosshd_bastion.Terminal.{pos}
use gosshd_bastion.Terminal.Integration.{
  intro, escape, bell, consume, first_mark, held_back, parse_event,
}
use gosshd_bastion.Terminal.Feed.{before_escape, matched0, matched2, feed, finish, held_bytes}
use gosshd_bastion.Terminal.Stream.{consume-feed}
use gosshd_bastion.Terminal.Chunks.{consume_chunks, fits, concat, consume_chunks-feed}
use gosshd_bastion.Terminal.Screen.{Text}
use gosshd_bastion.Terminal.Session.{Session, write_output}
use gosshd_bastion.Terminal.Bounded.{IsSafe, write_output-IsSafe}
use gosshd_bastion.Terminal.Routing.{earliest_online}
use gosshd_bastion.Terminal.Earliest.{IsEarliest, earliest_online-IsEarliest}

-- A command that ends with code 7.
abbrev ended : Bytes
ended = codes "hi" ++ intro ++ codes "D;7" ++ bell ∷ codes "$ "

code_seven : consume [] ended ≡ record {
  buffer = [];
  clean = codes "hi$ ";
  events = record { kind = codes "D"; id = []; exit_code = pos 7; directory = [] } ∷ [];
}
unfolding consume first_mark held_back parse_event
code_seven = refl

-- The second half of the beginning is held back.
consume-feed_example :
    consume (held_bytes matched2) (codes "633;A" ++ escape ∷ [])
    ≡ finish (feed matched2 (codes "633;A" ++ escape ∷ []))
consume-feed_example = consume-feed matched2 (codes "633;A" ++ escape ∷ []) tt

abbrev halves : List Bytes
halves = take 5 ended ∷ codes "33;C" ∷ (escape ∷ 0x5C ∷ codes "ok") ∷ []

consume_chunks-feed_example :
    consume_chunks (held_bytes matched0) halves ≡ fits (feed matched0 (concat halves))
unfolding feed before_escape
consume_chunks-feed_example =
    consume_chunks-feed halves matched0 tt (omega arith, (omega arith, (omega arith, tt)))

abbrev ascii : Text
ascii = record { to_valid_utf8 = λ s. s; runes = λ s. s }

abbrev session_at : Bytes → ℕ → Session
session_at id started = record {
  id = id;
  user_id = codes "u";
  target_id = codes "t";
  started_at = started;
  input_ready = true;
  clients = 1 ∷ [];
  output = [];
  screen = record { rows = 2; lines = []; cur = [] };
  last_heartbeat = 90;
  closed = false;
  shell_busy = false;
  collaboration = true;
  waiters = record { id = []; command = codes "ls"; output = []; done = none } ∷ [];
  osc_buffer = [];
  current_directory = [];
}

session-IsSafe : IsSafe (session_at (codes "s") 3)
unfolding contains_any
session-IsSafe = record {
  output = omega arith;
  screen = omega arith;
  waiters = (omega arith, tt);
  directory = refl;
}

write_output-IsSafe_example :
    IsSafe (write_output ascii (codes "output") ended (session_at (codes "s") 3)).0
write_output-IsSafe_example =
    write_output-IsSafe ascii (codes "output") ended (session_at (codes "s") 3) session-IsSafe

abbrev three : List Session
three =
    record (session_at (codes "s1") 1) { shell_busy = true }
    ∷ session_at (codes "s2") 8
    ∷ session_at (codes "s3") 5
    ∷ []

earliest_online-IsEarliest_example :
    IsEarliest
      (codes "u")
      (codes "t")
      100
      three
      (earliest_online (codes "u") (codes "t") 100 three).session
earliest_online-IsEarliest_example = earliest_online-IsEarliest (codes "u") (codes "t") 100 three
