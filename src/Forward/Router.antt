-- ===== src/Forward/Router.antt =====
-- internal/forward/config.go: the tables that `Compile` builds, and `Match`. A map is a list of entries
-- with the last one set in front.
pub mod Locations
pub mod Hosts
pub mod Reference
use gosshd_bastion.Base.{
  ℕ, Bool, true, false, not, ◌&&◌, ◌||◌, List, [], ◌∷◌, ◌++◌, Option, none, some, ltb,
  if◌then◌else◌, length, is_empty, drop,
}
use gosshd_bastion.Base.Bytes.{Bytes, codes, bytes_eq, has_prefix, has_byte, to_lower, trim_space}
use gosshd_bastion.Base.Texts.{has_suffix, trim_last}
use gosshd_bastion.Base.Sorting.{sort_by, first_match}
use gosshd_bastion.Base.Result.{Result, ok, err, ◌>>=◌, ◌>>◌, reject}
use gosshd_bastion.Forward.{Location, ServerBlock, Net, CompiledLocation}
use gosshd_bastion.Forward.Compile.{en_dash, check_servers}

pub record CompiledServer : Type 0 where
  pub id : Bytes
  pub exact : List (Bytes × Location)
  pub prefixes : List CompiledLocation
  pub regexes : List CompiledLocation

pub record HostWildcard : Type 0 where
  pub suffix : Bytes
  pub server : CompiledServer

pub record Router : Type 0 where
  pub exact : List (Bytes × CompiledServer)
  pub wildcard : List HostWildcard
  pub fallback : Option CompiledServer

abbrev pub is_exact : CompiledLocation → Bool
is_exact l = bytes_eq l.location.modifier (codes "=")

abbrev pub path_size : CompiledLocation → ℕ
path_size l = length l.location.path

-- The body of the loop that sorts the locations of a server into its three tables.
unfoldable pub place_location : CompiledLocation → CompiledServer → CompiledServer
unfolding bytes_eq
place_location l s = elim l.regex [
  | some regex ↦ record s { regexes = s.regexes ++ l ∷ [] }
  | none ↦
      if is_exact l
      then record s { exact = (l.location.path, l.location) ∷ s.exact }
      else record s { prefixes = s.prefixes ++ l ∷ [] }
]

unfoldable pub place_locations : List CompiledLocation → CompiledServer → CompiledServer
unfolding place_location
place_locations [] s = s
place_locations (l ∷ rest) s = place_locations rest (place_location l s)

unfoldable pub compiled_server : ServerBlock → List CompiledLocation → CompiledServer
unfolding place_locations sort_by
compiled_server block locations =
    let s =
      place_locations locations
        (record { id = block.id; exact = []; prefixes = []; regexes = [] }) in
    record s { prefixes = sort_by path_size s.prefixes }

-- The name under which a host is entered.
unfoldable pub entered_host : Bytes → Bytes
unfolding trim_space trim_last to_lower
entered_host raw = to_lower (trim_last b'.' (trim_space raw))

-- One name of a server: it is the fallback, a wildcard or an exact name.
unfoldable pub enter_host : CompiledServer → Bytes → Router → Router
unfolding bytes_eq has_prefix
enter_host s h r =
    if bytes_eq h (codes "_") || bytes_eq h (codes "*")
    then record r { fallback = some s }
    else if has_prefix (codes "*.") h
    then record r { wildcard = r.wildcard ++ (record { suffix = drop 1 h; server = s }) ∷ [] }
    else record r { exact = (h, s) ∷ r.exact }

unfoldable pub enter_hosts : CompiledServer → List Bytes → Router → Router
unfolding entered_host enter_host
enter_hosts s [] r = r
enter_hosts s (raw ∷ rest) r = enter_hosts s rest (enter_host s (entered_host raw) r)

unfoldable pub enter_servers : List (ServerBlock × List CompiledLocation) → Router → Router
unfolding enter_hosts compiled_server
enter_servers [] r = r
enter_servers ((block, locations) ∷ rest) r =
    enter_servers rest (enter_hosts (compiled_server block locations) block.hosts r)

abbrev pub empty_router : Router
empty_router = record { exact = []; wildcard = []; fallback = none }

abbrev pub suffix_size : HostWildcard → ℕ
suffix_size w = length w.suffix

unfoldable pub router_of : List (ServerBlock × List CompiledLocation) → Router
unfolding enter_servers sort_by
router_of servers =
    let r = enter_servers servers empty_router in
    record r { wildcard = sort_by suffix_size r.wildcard }

abbrev server_count_error : Bytes
server_count_error = codes "HTTP requires 1" ++ en_dash ++ codes "128 server blocks"

-- `Compile`; a nil configuration is `none`.
unfoldable pub compile : Net → Option (List ServerBlock) → Result Router
unfolding check_servers router_of
compile net none = err server_count_error
compile net (some servers) = do
  reject (is_empty servers || ltb 128 (length servers)) server_count_error
  checked ← check_servers net servers (record { ids = []; hosts = []; count = 0 })
  ok (router_of checked)

unfoldable pub find_text {ℓ} : {A : Type ℓ} → Bytes → List (Bytes × A) → Option A
unfolding bytes_eq
find_text key [] = none
find_text key ((k, a) ∷ rest) = if bytes_eq k key then some a else find_text key rest

abbrev pub or_else {ℓ} : {A : Type ℓ} → Option A → Option A → Option A
or_else (some a) other = some a
or_else none other = other

-- The host of a request.
unfoldable pub request_host : Net → Bytes → Bytes
unfolding has_byte trim_last to_lower
request_host net host =
    let bare =
      if has_byte b':' host
      then elim (net.split_host_port host) [ none ↦ host | some h ↦ h ]
      else host in
    to_lower (trim_last b'.' bare)

abbrev pub covers : Bytes → HostWildcard → Bool
covers host w = has_suffix w.suffix host && ltb (length w.suffix) (length host)

abbrev pub server_of : Option HostWildcard → Option CompiledServer
server_of none = none
server_of (some w) = some w.server

unfoldable pub select_server : Router → Bytes → Option CompiledServer
unfolding find_text first_match has_suffix
select_server r host =
    or_else (find_text host r.exact)
      (or_else (server_of (first_match (covers host) r.wildcard)) r.fallback)

abbrev pub starts : Bytes → CompiledLocation → Bool
starts path l = has_prefix l.location.path path

abbrev matches : Bytes → CompiledLocation → Bool
matches path l = elim l.regex [ none ↦ false | some regex ↦ regex path ]

unfoldable pub first_regex : Bytes → List CompiledLocation → Option Location
first_regex path [] = none
first_regex path (l ∷ rest) = if matches path l then some l.location else first_regex path rest

abbrev prefers : CompiledLocation → Bool
prefers l = bytes_eq l.location.modifier (codes "^~")

-- What is left when no exact location has the path; `prefix` is the literal one that was found.
unfoldable pub after_prefix :
    Bytes → List CompiledLocation → Option CompiledLocation → Option Location
unfolding first_regex bytes_eq
after_prefix path regexes none = first_regex path regexes
after_prefix path regexes (some prefix) =
    if prefers prefix
    then some prefix.location
    else or_else (first_regex path regexes) (some prefix.location)

unfoldable pub match_location : CompiledServer → Bytes → Option Location
unfolding find_text first_match after_prefix has_prefix
match_location s path =
    or_else (find_text path s.exact)
      (after_prefix path s.regexes (first_match (starts path) s.prefixes))

-- The location, if any, and the ID of the server, empty if there is none.
abbrev pub answer : Bytes → Option CompiledServer → Option Location × Bytes
answer path none = (none, [])
answer path (some s) = (match_location s path, s.id)

-- `Match`.
unfoldable pub match_request : Net → Router → Bytes → Bytes → Option Location × Bytes
unfolding request_host select_server match_location
match_request net r host path = answer path (select_server r (request_host net host))
