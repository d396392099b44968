-- ===== src/Forward/Router/Reference.antt =====
-- What a request is answered with, read off the configuration without tables or sorting; and that the
-- router answers it so.
use gosshd_bastion.Base.{
  false, if◌then◌else◌, ◌||◌, List, [], ◌∷◌, Option, none, some, ltb, length, is_empty, ◌≡◌, refl,
  sym, ap, All, ◌≤◌, ◌∙◌, arith, map,
}
use gosshd_bastion.Base.Bytes.{Bytes, has_byte}
use gosshd_bastion.Forward.{Location, ServerBlock, Net}
use gosshd_bastion.Forward.Router.{Router, router_of, request_host, answer, match_request}
use gosshd_bastion.Base.Fresh.{AreFresh}
use gosshd_bastion.Base.Result.{ok, >>=-eq-ok, reject-eq-ok}
use gosshd_bastion.Forward.Compile.{Seen, check_servers}
use gosshd_bastion.Forward.Compile.Sound.{
  IsUsable, all_locations, all_ids, read_server, check_servers-IsUsable,
}
use gosshd_bastion.Forward.Router.{compile}
use gosshd_bastion.Forward.Router.Locations.{
  reference_location, match_location-eq, compiled_server-id,
}
use gosshd_bastion.Forward.Router.Hosts.{
  Block, normal_host, reference_server, all_names, select_server-eq, map_option, compiled,
}

abbrev pub reference_answer : Bytes → Option Block → Option Location × Bytes
reference_answer path none = (none, [])
reference_answer path (some b) = (reference_location b.1 path, b.0.id)

-- The host of a request without its port.
abbrev bare_host : Net → Bytes → Bytes
bare_host net host =
    if has_byte b':' host
    then elim (net.split_host_port host) [ none ↦ host | some name ↦ name ]
    else host

abbrev pub reference_request : Net → List Block → Bytes → Bytes → Option Location × Bytes
reference_request net servers host path =
    reference_answer path (reference_server (normal_host (bare_host net host)) (all_names servers))

answer-reference_answer :
    (path : Bytes) (o : Option Block)
    → answer path (map_option compiled o) ≡ reference_answer path o
answer-reference_answer path none = refl
answer-reference_answer path (some b) =
    λ i. (match_location-eq b.0 b.1 path i, compiled_server-id b.0 b.1 i)

-- For every list of checked servers, every host and every path, the router that `Compile` builds and
-- `Match` answer as the configuration reads without tables and sorting. Hosts are compared without
-- their port, in lower case and without a dot at the end: the server is the last one that has this very
-- name, else the one with the longest suffix that covers the host, the first one of several, else the
-- last one named `_` or `*`. Its location is the last one marked `=` with this very path, else the
-- longest literal one that the path starts with if it is marked `^~`, else the first one with a pattern
-- that the path meets, else that literal one.
pub match_request-reference :
    (net : Net) (servers : List Block) (host path : Bytes)
    → match_request net (router_of servers) host path ≡ reference_request net servers host path
unfolding match_request request_host
match_request-reference net servers host path =
    let name = normal_host (bare_host net host) in
    ap (answer path) (select_server-eq servers name)
    ∙ answer-reference_answer path (reference_server name (all_names servers))

some_server :
    (servers : List ServerBlock)
    → (is_empty servers || ltb 128 (length servers)) ≡ false
    → 1 ≤ length servers
some_server [] h = absurd (cc)
some_server (s ∷ rest) h = omega arith

-- A configuration that `Compile` accepts has 1 to 128 servers and at most 1024 locations; the IDs of its
-- servers and locations are all distinct; each location has an ID, a port from 1 to 65535, a path of at
-- most 4096 bytes, and, if it is marked `~` or `~*`, a pattern that compiles; and every request is answered
-- as the servers of the configuration read, each with its own locations in their order, those marked `~`
-- with the pattern of their path, those marked `~*` with that of `(?i)` and their path, others with none.
pub compile-IsUsable :
    (net : Net) (servers : List ServerBlock) (r : Router)
    → compile net (some servers) ≡ ok r
    → (1 ≤ length servers)
      × (length servers ≤ 128)
      × All (IsUsable net) (all_locations servers)
      × AreFresh (all_ids servers) []
      × (length (all_locations servers) ≤ 1024)
      × ((host path : Bytes)
          → match_request net r host path
            ≡ reference_request net (map (read_server net) servers) host path)
unfolding compile
compile-IsUsable net servers r h =
    let start : Seen = record { ids = []; hosts = []; count = 0 } in
    let (sized, h1) = reject-eq-ok (is_empty servers || ltb 128 (length servers)) _ _ h in
    let (blocks, checked, same) =
      >>=-eq-ok (check_servers net servers start) (λ blocks. ok (router_of blocks)) h1 in
    let (usable, fresh, room, read) =
      check_servers-IsUsable net servers start blocks (omega arith) checked in
    let built : router_of blocks ≡ r = cc in
    (
      some_server servers sized,
      ground arith,
      usable,
      fresh,
      omega arith,
      λ host path.
          ap (λ (x : Router). match_request net x host path) (sym built)
          ∙ match_request-reference net blocks host path
          ∙ ap (λ (bs : List Block). reference_request net bs host path) read,
    )
