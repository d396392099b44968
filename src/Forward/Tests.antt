-- ===== src/Forward/Tests.antt =====
-- Tests of the routes, and the theorems at concrete inputs.
use gosshd_bastion.Base.{
  ◌++◌, ◌≤◌, false, List, [], ◌∷◌, Option, none, some, length, ◌≡◌, refl, arith, map, All,
}
use gosshd_bastion.Base.Bytes.{Bytes, codes, bytes_eq}
use gosshd_bastion.Base.Fresh.{AreFresh}
use gosshd_bastion.Base.Result.{Result, ok, ◌>>=◌}
use gosshd_bastion.Forward.{Location, ServerBlock, Net}
use gosshd_bastion.Forward.Compile.Sound.{IsUsable, all_locations, all_ids, read_server}
use gosshd_bastion.Forward.Udp.{UdpSessions}
use gosshd_bastion.Forward.Udp.Bounds.{
  UdpStep, receives, settles, takes, uncounts, ends, udp_run, IsWithin, udp_run-IsWithin,
}
use gosshd_bastion.Forward.Router.{Router, compile, router_of, match_request}
use gosshd_bastion.Forward.Router.Hosts.{Block}
use gosshd_bastion.Forward.Router.Reference.{
  match_request-reference, compile-IsUsable, reference_request,
}

-- No text is an IP address or has a port; a pattern meets its own text.
abbrev plain_net : Net
plain_net = record {
  is_ip = λ _. false;
  split_host_port = λ _. none;
  compile_pattern = λ p. some (bytes_eq p);
}

abbrev location : Bytes → Bytes → Bytes → Location
location id modifier path = record {
  id = id;
  name = [];
  modifier = modifier;
  path = path;
  exit_target_id = [];
  scheme = codes "http";
  host = codes "app";
  port = 80;
  strip_prefix = false;
  preserve_host = false;
  headers = [];
}

abbrev web : ServerBlock
web = record {
  id = codes "s1";
  name = [];
  hosts = codes "*.a.io" ∷ codes "A.io" ∷ [];
  locations =
      location (codes "l1") [] (codes "/")
      ∷ location (codes "l2") (codes "^~") (codes "/files/")
      ∷ location (codes "l3") (codes "=") (codes "/files/x")
      ∷ location (codes "l4") (codes "~") (codes "/api")
      ∷ [];
}

abbrev other : ServerBlock
other = record {
  id = codes "s2";
  name = [];
  hosts = codes "_" ∷ codes "*.b.a.io" ∷ [];
  locations = location (codes "l5") [] (codes "/") ∷ [];
}

abbrev web_blocks : List Block
web_blocks =
    (
      web,
      map (λ l. record { location = l; regex = none })
          (location (codes "l1") [] (codes "/")
            ∷ location (codes "l2") (codes "^~") (codes "/files/")
            ∷ location (codes "l3") (codes "=") (codes "/files/x")
            ∷ []),
    )
    ∷ []

abbrev location_id : Option Location × Bytes → Option Bytes × Bytes
location_id (none, server) = (none, server)
location_id (some l, server) = (some l.id, server)

abbrev route : Bytes → Bytes → Result (Option Bytes × Bytes)
route host path = compile plain_net (some (web ∷ other ∷ [])) >>= λ r.
    ok (location_id (match_request plain_net r host path))

exact_first : route (codes "a.io.") (codes "/files/x") ≡ ok (some (codes "l3"), codes "s1")
unfolding compile match_request
exact_first = refl

pattern_before_prefix : route (codes "a.io") (codes "/api") ≡ ok (some (codes "l4"), codes "s1")
unfolding compile match_request
pattern_before_prefix = refl

longest_wildcard : route (codes "x.b.a.io") (codes "/q") ≡ ok (some (codes "l5"), codes "s2")
unfolding compile match_request
longest_wildcard = refl

abbrev block_named : Bytes → Bytes → Bytes → ServerBlock
block_named id host route = record {
  id = id;
  name = [];
  hosts = host ∷ [];
  locations = location route [] (codes "/") ∷ [];
}

-- A dot at the end is no difference between two names when they are entered, and is one when they are
-- checked.
dotted_name_taken :
    (compile plain_net (
        some (
          block_named (codes "s1") (codes "a.io") (codes "l1")
          ∷ block_named (codes "s2") (codes "a.io.") (codes "l2")
          ∷ []))
      >>= λ r. ok (location_id (match_request plain_net r (codes "a.io") (codes "/"))))
    ≡ ok (some (codes "l2"), codes "s2")
unfolding compile match_request
dotted_name_taken = refl

match_request-reference_example :
    match_request plain_net (router_of web_blocks) (codes "x.a.io") (codes "/files/y")
    ≡ reference_request plain_net web_blocks (codes "x.a.io") (codes "/files/y")
match_request-reference_example =
    match_request-reference plain_net web_blocks (codes "x.a.io") (codes "/files/y")

abbrev small : ServerBlock
small = record {
  id = codes "s2";
  name = [];
  hosts = codes "_" ∷ [];
  locations =
      location (codes "l5") [] (codes "/") ∷ location (codes "l6") (codes "~*") (codes "/q") ∷ [];
}

abbrev small_router : Router
small_router = router_of (map (read_server plain_net) (small ∷ []))

small_compiles : compile plain_net (some (small ∷ [])) ≡ ok small_router
unfolding compile
small_compiles = refl

compile-IsUsable_example :
    (1 ≤ length (small ∷ []))
    × (length (small ∷ []) ≤ 128)
    × All (IsUsable plain_net) (all_locations (small ∷ []))
    × AreFresh (all_ids (small ∷ [])) []
    × (length (all_locations (small ∷ [])) ≤ 1024)
    × ((host path : Bytes)
        → match_request plain_net small_router host path
          ≡ reference_request plain_net (map (read_server plain_net) (small ∷ [])) host path)
compile-IsUsable_example = compile-IsUsable plain_net (small ∷ []) small_router small_compiles

abbrev no_udp : UdpSessions
no_udp = record { sources = []; queued = 0; arriving = none; sending = [] }

abbrev packets_in : List UdpStep
packets_in =
    receives false (codes "a:1") (codes "abc")
    ∷ settles
    ∷ receives false (codes "b:2") (codes "d")
    ∷ takes (codes "a:1")
    ∷ settles
    ∷ ends (codes "b:2")
    ∷ []

-- The sender has taken a packet and not subtracted it.
one_under_way : (udp_run packets_in no_udp).queued ≡ 4
unfolding udp_run
one_under_way = refl

all_drained : (udp_run (packets_in ++ uncounts (codes "a:1") ∷ []) no_udp).queued ≡ 0
unfolding udp_run
all_drained = refl

udp_run-IsWithin_example : IsWithin (udp_run packets_in no_udp)
udp_run-IsWithin_example =
    udp_run-IsWithin packets_in no_udp
      (record { counted = refl; bounded = omega arith; few = omega arith; short = tt })
