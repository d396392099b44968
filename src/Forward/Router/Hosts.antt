-- ===== src/Forward/Router/Hosts.antt =====
-- Which server has a host, read off the list of all names without tables or sorting.
use gosshd_bastion.Base.{
  ℕ, Bool, not, ◌&&◌, ◌||◌, List, [], ◌∷◌, ◌++◌, Option, none, some, ltb, if◌then◌else◌, length,
  drop, ◌≡◌, refl, sym, ap, ap₂, ◌∙◌, arith, append_assoc, append-nil, map, Bool-cases, inl, inr,
}
use gosshd_bastion.Base.Bytes.{Bytes, codes, bytes_eq, has_prefix, to_lower, trim_space}
use gosshd_bastion.Base.Texts.{has_suffix, trim_last}
use gosshd_bastion.Base.Sorting.{sort_by, first_match, largest_match, first_match-sort_by}
use gosshd_bastion.Forward.{ServerBlock, CompiledLocation}
use gosshd_bastion.Forward.Router.{
  CompiledServer, HostWildcard, Router, compiled_server, entered_host, enter_host, enter_hosts,
  enter_servers, empty_router, suffix_size, router_of, find_text, or_else, covers, server_of,
  select_server,
}

abbrev pub Block : Type 0
Block = ServerBlock × List CompiledLocation

abbrev pub compiled : Block → CompiledServer
compiled b = compiled_server b.0 b.1

abbrev is_fallback : Bytes → Bool
is_fallback h = bytes_eq h (codes "_") || bytes_eq h (codes "*")

abbrev is_wildcard : Bytes → Bool
is_wildcard h = not (is_fallback h) && has_prefix (codes "*.") h

abbrev is_name : Bytes → Bool
is_name h = not (is_fallback h) && not (has_prefix (codes "*.") h)

abbrev pub map_option {ℓ κ} : {A : Type ℓ} {B : Type κ} → (A → B) → Option A → Option B
map_option f none = none
map_option f (some a) = some (f a)

-- The server with this very name; of several, the last one.
abbrev pub exact_server : Bytes → List (Bytes × Block) → Option Block
exact_server host [] = none
exact_server host ((h, b) ∷ rest) =
    or_else (exact_server host rest) (if is_name h && bytes_eq h host then some b else none)

-- The server of the last name `_` or `*`.
abbrev pub fallback_server : List (Bytes × Block) → Option Block
fallback_server [] = none
fallback_server ((h, b) ∷ rest) =
    or_else (fallback_server rest) (if is_fallback h then some b else none)

abbrev wild_size : Bytes × Block → ℕ
wild_size n = length (drop 1 n.0)

abbrev wild_covers : Bytes → Bytes × Block → Bool
wild_covers host n =
    is_wildcard n.0 && (has_suffix (drop 1 n.0) host && ltb (length (drop 1 n.0)) (length host))

abbrev block_of : Option (Bytes × Block) → Option Block
block_of none = none
block_of (some n) = some n.1

-- The server of the longest name `*.…` that covers the host; of several, the first one.
abbrev pub wildcard_server : Bytes → List (Bytes × Block) → Option Block
wildcard_server host names = block_of (largest_match wild_size (wild_covers host) names)

abbrev pub reference_server : Bytes → List (Bytes × Block) → Option Block
reference_server host names =
    or_else (exact_server host names) (or_else (wildcard_server host names) (fallback_server names))

-- A host in lower case, without a dot at its end.
abbrev pub normal_host : Bytes → Bytes
normal_host host = to_lower (trim_last b'.' host)

-- The names of all servers, each with its server, in the order of the configuration.
abbrev named : Block → List Bytes → List (Bytes × Block)
named b = map (λ raw. (normal_host (trim_space raw), b))

abbrev pub all_names : List Block → List (Bytes × Block)
all_names [] = []
all_names ((block, ls) ∷ rest) = named (block, ls) block.hosts ++ all_names rest

enter_names : List (Bytes × Block) → Router → Router
enter_names [] r = r
enter_names ((h, b) ∷ rest) r = enter_names rest (enter_host (compiled b) h r)

enter_host-exact :
    (host h : Bytes) (s : CompiledServer) (r : Router)
    → find_text host (enter_host s h r).exact
      ≡ (if is_name h && bytes_eq h host then some s else find_text host r.exact)
unfolding enter_host find_text
enter_host-exact host h s r = ground arith

enter_host-fallback :
    (h : Bytes) (s : CompiledServer) (r : Router)
    → (enter_host s h r).fallback ≡ (if is_fallback h then some s else r.fallback)
unfolding enter_host
enter_host-fallback h s r = ground arith

enter_host-wildcard :
    (h : Bytes) (s : CompiledServer) (r : Router)
    → (enter_host s h r).wildcard ≡ (
        if is_wildcard h
        then r.wildcard ++ (record { suffix = drop 1 h; server = s }) ∷ []
        else r.wildcard)
unfolding enter_host
enter_host-wildcard h s r = ground arith

enter_names-exact :
    (host : Bytes) (names : List (Bytes × Block)) (r : Router)
    → find_text host (enter_names names r).exact
      ≡ or_else (map_option compiled (exact_server host names)) (find_text host r.exact)
unfolding enter_names
enter_names-exact host [] r = refl
enter_names-exact host ((h, b) ∷ rest) r = ground (
  arith,
  enter_names-exact host rest (enter_host (compiled b) h r),
  enter_host-exact host h (compiled b) r,
)

enter_names-fallback :
    (names : List (Bytes × Block)) (r : Router)
    → (enter_names names r).fallback
      ≡ or_else (map_option compiled (fallback_server names)) r.fallback
unfolding enter_names
enter_names-fallback [] r = refl
enter_names-fallback ((h, b) ∷ rest) r = ground (
  arith,
  enter_names-fallback rest (enter_host (compiled b) h r),
  enter_host-fallback h (compiled b) r,
)

abbrev wildcard_of : Bytes × Block → HostWildcard
wildcard_of n = record { suffix = drop 1 n.0; server = compiled n.1 }

wildcards : List (Bytes × Block) → List HostWildcard
wildcards [] = []
wildcards (n ∷ rest) =
    let later = wildcards rest in if is_wildcard n.0 then wildcard_of n ∷ later else later

enter_names-wildcard :
    (names : List (Bytes × Block)) (r : Router)
    → (enter_names names r).wildcard ≡ r.wildcard ++ wildcards names
unfolding enter_names wildcards
enter_names-wildcard [] r = rw append-nil
enter_names-wildcard ((h, b) ∷ rest) r =
    enter_names-wildcard rest (enter_host (compiled b) h r) ∙ elim (Bool-cases (is_wildcard h)) [
      | inl e ↦
          rw (enter_host-wildcard h (compiled b) r, e)
            (append_assoc r.wildcard (wildcard_of (h, b) ∷ []) (wildcards rest))
      | inr e ↦ rw (enter_host-wildcard h (compiled b) r, e)
    ]

largest_match-wildcards :
    (host : Bytes) (names : List (Bytes × Block))
    → largest_match suffix_size (covers host) (wildcards names)
      ≡ map_option wildcard_of (largest_match wild_size (wild_covers host) names)
unfolding largest_match wildcards
largest_match-wildcards host [] = refl
largest_match-wildcards host (n ∷ rest) = ground (arith, largest_match-wildcards host rest)

enter_names-named :
    (b : Block) (hosts : List Bytes) (rest : List (Bytes × Block)) (r : Router)
    → enter_names (named b hosts ++ rest) r ≡ enter_names rest (enter_hosts (compiled b) hosts r)
unfolding enter_names enter_hosts entered_host
enter_names-named b [] rest r = refl
enter_names-named b (raw ∷ hosts) rest r =
    enter_names-named b hosts rest (enter_host (compiled b) (normal_host (trim_space raw)) r)

enter_servers-enter_names :
    (servers : List Block) (r : Router)
    → enter_servers servers r ≡ enter_names (all_names servers) r
unfolding enter_servers enter_names
enter_servers-enter_names [] r = refl
enter_servers-enter_names ((block, ls) ∷ rest) r =
    enter_servers-enter_names rest (enter_hosts (compiled_server block ls) block.hosts r)
    ∙ sym (enter_names-named (block, ls) block.hosts (all_names rest) r)

server_of-wildcard :
    (host : Bytes) (names : List (Bytes × Block))
    → server_of (first_match (covers host) (sort_by suffix_size (wildcards names)))
      ≡ map_option compiled (wildcard_server host names)
server_of-wildcard host names =
    let largest =
      first_match-sort_by suffix_size (covers host) (wildcards names)
      ∙ largest_match-wildcards host names in
    rw largest (ground arith)

or_else-none {ℓ} : {A : Type ℓ} (a : Option A) → or_else a none ≡ a
or_else-none none = refl
or_else-none (some a) = refl

map_option-or_else {ℓ κ} :
    {A : Type ℓ} {B : Type κ} (f : A → B) (a b : Option A)
    → map_option f (or_else a b) ≡ or_else (map_option f a) (map_option f b)
map_option-or_else f none b = refl
map_option-or_else f (some a) b = refl

map_reference_server :
    (host : Bytes) (names : List (Bytes × Block))
    → map_option compiled (reference_server host names)
      ≡ or_else (map_option compiled (exact_server host names)) (
          or_else
            (map_option compiled (wildcard_server host names))
            (map_option compiled (fallback_server names)))
map_reference_server host names =
    map_option-or_else compiled (exact_server host names)
      (or_else (wildcard_server host names) (fallback_server names))
    ∙ ap (or_else (map_option compiled (exact_server host names)))
        (map_option-or_else compiled (wildcard_server host names) (fallback_server names))

pub select_server-eq :
    (servers : List Block) (host : Bytes)
    → select_server (router_of servers) host
      ≡ map_option compiled (reference_server host (all_names servers))
unfolding select_server router_of
select_server-eq servers host =
    let names = all_names servers in
    let entered = enter_servers-enter_names servers empty_router in
    let exact =
      ap (λ r. find_text host r.exact) entered ∙ enter_names-exact host names empty_router in
    let fallback = ap (λ r. r.fallback) entered ∙ enter_names-fallback names empty_router in
    let wildcard = ap (λ r. r.wildcard) entered ∙ enter_names-wildcard names empty_router in
    let largest =
      ap (λ ws. server_of (first_match (covers host) (sort_by suffix_size ws))) wildcard
      ∙ server_of-wildcard host names in
    ap₂ or_else (exact ∙ or_else-none (map_option compiled (exact_server host names)))
      (ap₂ or_else largest (fallback ∙ or_else-none (map_option compiled (fallback_server names))))
    ∙ sym (map_reference_server host names)
