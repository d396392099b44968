-- ===== src/Forward/Compile.antt =====
-- internal/forward/config.go: the checks of `Compile`.
pub mod Sound
use gosshd_bastion.Base.{
  ℕ, ◌+◌, Bool, true, false, not, ◌&&◌, ◌||◌, List, [], ◌∷◌, ◌++◌, Option, none, some, ltb, leb,
  ◌==◌, if◌then◌else◌, length, is_empty, any, every,
}
use gosshd_bastion.Base.Bytes.{
  Bytes, codes, bytes_eq, has_prefix, has_byte, cut, to_lower, trim_space,
}
use gosshd_bastion.Base.Texts.{trim_prefix, contains_any, is_among}
use gosshd_bastion.Base.Result.{Result, ok, err, ◌>>=◌, ◌>>◌, reject}
use gosshd_bastion.Forward.{Location, ServerBlock, Net, CompiledLocation}

-- The variables `ids`, `hosts` and `count`, and `paths` of one server.
pub record Seen : Type 0 where
  pub ids : List Bytes
  pub hosts : List Bytes
  pub count : ℕ

-- In UTF-8.
abbrev pub en_dash : Bytes
en_dash = 0xE2 ∷ 0x80 ∷ 0x93 ∷ []

abbrev bad_ids : Bytes
bad_ids = codes "server/location IDs must be nonempty and unique"

abbrev bad_id : Bytes → Seen → Bool
bad_id id seen =
    is_empty id || ltb 128 (length id) || contains_any (codes "\r\n") id || is_among id seen.ids

-- The name under which a host is checked for duplicates.
unfoldable pub checked_host : Bytes → Bytes
unfolding to_lower trim_space
checked_host raw = to_lower (trim_space raw)

abbrev bad_host : Bytes → Bool
bad_host h =
    is_empty h
    || ltb 253 (length h)
    || contains_any (codes " /\\\t\r\n:") h
    || (not (bytes_eq h (codes "_"))
        && not (bytes_eq h (codes "*"))
        && has_byte b'*' (trim_prefix (codes "*.") h))

-- The two spellings of the fallback are one host.
abbrev as_fallback : Bytes → Bytes
as_fallback h = if bytes_eq h (codes "*") then codes "_" else h

unfoldable pub check_hosts : List Bytes → Seen → Result Seen
unfolding checked_host contains_any trim_prefix has_byte bytes_eq is_among
check_hosts [] seen = ok seen
check_hosts (raw ∷ rest) seen =
    let h = checked_host raw in
    let key = as_fallback h in
    let later = check_hosts rest (record seen { hosts = key ∷ seen.hosts }) in
    (reject (bad_host h) (codes "invalid server host")
      >> (reject (is_among key seen.hosts) (codes "duplicate server host") >> later))

abbrev pub is_literal : Bytes → Bool
is_literal m =
    is_empty m || bytes_eq m (codes "prefix") || bytes_eq m (codes "=") || bytes_eq m (codes "^~")

abbrev pub is_pattern : Bytes → Bool
is_pattern m = bytes_eq m (codes "~") || bytes_eq m (codes "~*")

-- The key of `paths`: all prefix matches share one modifier.
unfoldable pub match_key : Location → Bytes
unfolding bytes_eq
match_key l =
    (if is_empty l.modifier
        || bytes_eq l.modifier (codes "prefix")
        || bytes_eq l.modifier (codes "^~")
      then codes "prefix"
      else l.modifier)
    ++ 0 ∷ l.path

abbrev is_alphanumeric : ℕ → Bool
is_alphanumeric c =
    (leb b'a' c && leb c b'z') || (leb b'A' c && leb c b'Z') || (leb b'0' c && leb c b'9')

unfoldable pub valid_header : Bytes → Bool
unfolding has_byte
valid_header s =
    not (is_empty s) && every (λ c. is_alphanumeric c || has_byte c (codes "!#$%&'*+-.^_`|~")) s

abbrev reserved_headers : List Bytes
reserved_headers =
    codes "connection"
    ∷ codes "upgrade"
    ∷ codes "transfer-encoding"
    ∷ codes "content-length"
    ∷ codes "host"
    ∷ codes "forwarded"
    ∷ codes "x-forwarded-for"
    ∷ codes "x-forwarded-host"
    ∷ codes "x-forwarded-proto"
    ∷ []

unfoldable pub check_headers : List (Bytes × Bytes) → Result (Unit {0})
unfolding valid_header contains_any is_among to_lower
check_headers [] = ok tt
check_headers ((k, v) ∷ rest) =
    (reject (not (valid_header k) || contains_any (0 ∷ codes "\r\n") v)
        (codes "invalid proxy header")
      >> (reject (is_among (to_lower k) reserved_headers)
            (codes "hop-by-hop and forwarding headers cannot be overridden")
          >> check_headers rest))

module _ (net : Net) where
  -- The `switch l.Match`.
  unfoldable pub compile_match : Location → Result CompiledLocation
  unfolding bytes_eq has_prefix
  compile_match l =
      let pattern = if bytes_eq l.modifier (codes "~*") then codes "(?i)" ++ l.path else l.path in
      if is_literal l.modifier
      then (reject (not (has_prefix (codes "/") l.path))
            (codes "literal location must start with /")
          >> ok (record { location = l; regex = none }))
      else if is_pattern l.modifier
      then elim (net.compile_pattern pattern) [
        | none ↦ err (codes "location")
        | some regex ↦
            (reject l.strip_prefix (codes "strip_prefix is only supported for literal locations")
              >> ok (record { location = l; regex = some regex }))
      ]
      else err (codes "location match must be prefix, =, ^~, ~ or ~*")

  abbrev bad_upstream : Location → Bool
  bad_upstream l =
      is_empty (trim_space l.host)
      || ltb 253 (length l.host)
      || contains_any (codes " /\\\t\r\n") l.host
      || ltb l.port 1
      || ltb 65535 l.port

  -- The text before a zone, `%…`.
  abbrev without_zone : Bytes → Bytes
  without_zone host = elim (cut b'%' host) [ none ↦ host | some (before, after) ↦ before ]

  -- One location behind the count.
  unfoldable pub check_location : Location → Seen → List Bytes → Result CompiledLocation
  unfolding compile_match check_headers match_key is_among contains_any has_byte cut trim_space
      bytes_eq
  check_location l seen paths = do
    reject (ltb 1024 (seen.count + 1)) (codes "maximum 1024 locations")
    reject (ltb 128 (length l.name)) (codes "location name must be at most 128 characters")
    reject (bad_id l.id seen) bad_ids
    reject (not (bytes_eq l.scheme (codes "http")) && not (bytes_eq l.scheme (codes "https")))
        (codes "upstream scheme must be http or https")
    reject (bad_upstream l) (codes "invalid upstream host or port")
    reject (has_byte b':' l.host && not (net.is_ip (without_zone l.host)))
        (codes "upstream host must not include a port or IPv6 brackets")
    reject (is_empty l.path || ltb 4096 (length l.path))
        (codes "location path must contain 1" ++ en_dash ++ codes "4096 characters")
    reject (is_among (match_key l) paths) (codes "duplicate location match")
    compiled ← compile_match l
    _ ← check_headers l.headers
    ok compiled

  unfoldable pub check_locations :
      List Location → Seen → List Bytes → Result (List CompiledLocation × Seen)
  unfolding check_location
  check_locations [] seen paths = ok ([], seen)
  check_locations (l ∷ rest) seen paths =
      let later =
        check_locations rest (record seen { ids = l.id ∷ seen.ids; count = seen.count + 1 })
          (match_key l ∷ paths) in
      check_location l seen paths >>= λ compiled. later >>= λ r. ok (compiled ∷ r.0, r.1)

  -- One server: its locations, compiled.
  unfoldable pub check_server : ServerBlock → Seen → Result (List CompiledLocation × Seen)
  unfolding check_hosts check_locations contains_any is_among
  check_server s seen = do
    reject (ltb 128 (length s.name)) (codes "server name must be at most 128 characters")
    reject (bad_id s.id seen) bad_ids
    reject (is_empty s.hosts || ltb 128 (length s.hosts) || is_empty s.locations)
        (codes "each server requires hosts and locations")
    named ← check_hosts s.hosts (record seen { ids = s.id ∷ seen.ids })
    check_locations s.locations named []

  unfoldable pub check_servers :
      List ServerBlock → Seen → Result (List (ServerBlock × List CompiledLocation))
  unfolding check_server
  check_servers [] seen = ok []
  check_servers (s ∷ rest) seen =
      check_server s seen >>= λ r. check_servers rest r.1 >>= λ compiled. ok ((s, r.0) ∷ compiled)
