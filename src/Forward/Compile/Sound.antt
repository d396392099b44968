-- ===== src/Forward/Compile/Sound.antt =====
-- What a configuration that passes the checks of `Compile` satisfies.
use gosshd_bastion.Base.{
  ℕ, ◌+◌, ◌≤◌, Bool, true, not, refl, Option, none, some, Bool-cases, inl, inr, if◌then◌else◌,
  false, ◌||◌, List, [], ◌∷◌, ◌++◌, ltb, length, is_empty, ◌≡◌, ap, subst, ◌∙◌, arith, map, All,
  All-append, length-append,
}
use gosshd_bastion.Base.Bytes.{Bytes, codes, bytes_eq, bytes_eq_iff}
use gosshd_bastion.Base.Texts.{is_among}
use gosshd_bastion.Base.Fresh.{AreFresh, with_ids, AreFresh-append}
use gosshd_bastion.Base.Result.{ok, >>=-eq-ok, reject-eq-ok}
use gosshd_bastion.Forward.{Location, ServerBlock, Net, CompiledLocation}
use gosshd_bastion.Forward.Compile.{
  Seen, check_hosts, check_location, check_locations, check_server, check_servers, as_fallback,
  checked_host, bad_id, compile_match, is_literal, match_key,
}

abbrev location_ids : List Location → List Bytes
location_ids = map (λ l. l.id)

-- The pattern that a location is marked to have, `none` too if it is not a pattern.
abbrev pub pattern_of : Net → Location → Option (Bytes → Bool)
pattern_of net l =
    if bytes_eq l.modifier (codes "~*")
    then net.compile_pattern (codes "(?i)" ++ l.path)
    else if bytes_eq l.modifier (codes "~")
    then net.compile_pattern l.path
    else none

-- A location with its pattern, and a server with its locations, as the configuration has them.
abbrev pub read_location : Net → Location → CompiledLocation
read_location net l = record { location = l; regex = pattern_of net l }

abbrev pub read_server : Net → ServerBlock → ServerBlock × List CompiledLocation
read_server net s = (s, map (read_location net) s.locations)

abbrev is_some {ℓ} : {A : Type ℓ} → Option A → Bool
is_some none = false
is_some (some a) = true

abbrev is_marked_pattern : Location → Bool
is_marked_pattern l = bytes_eq l.modifier (codes "~*") || bytes_eq l.modifier (codes "~")

abbrev pub IsUsable : Net → Location → Type 0
IsUsable net l =
    (1 ≤ l.port)
    × (l.port ≤ 65535)
    × (is_empty l.id ≡ false)
    × (length l.path ≤ 4096)
    × ((not (is_marked_pattern l) || is_some (pattern_of net l)) ≡ true)

-- The modifiers of literal locations are not those of patterns.
literal_modifier :
    (m : Bytes)
    → is_literal m ≡ true
    → (bytes_eq m (codes "~*") ≡ false) × (bytes_eq m (codes "~") ≡ false)
unfolding bytes_eq
literal_modifier m h = (other (codes "~*") refl, other (codes "~") refl)
  where
    other : (n : Bytes) → is_literal n ≡ false → bytes_eq m n ≡ false
    other n no_ = elim (Bool-cases (bytes_eq m n)) [
      | inr e ↦ e
      | inl e ↦ let same = (bytes_eq_iff m n).0 e in absurd (cc)
    ]

check_hosts-kept :
    (hosts : List Bytes) (seen seen' : Seen)
    → check_hosts hosts seen ≡ ok seen'
    → (seen'.ids ≡ seen.ids) × (seen'.count ≡ seen.count)
unfolding check_hosts
check_hosts-kept [] seen seen' h = ground arith
check_hosts-kept (raw ∷ rest) seen seen' h =
    let key = as_fallback (checked_host raw) in
    ground (arith, check_hosts-kept rest (record seen { hosts = key ∷ seen.hosts }) seen')

module _ (net : Net) where
  compile_match-read_location :
      (l : Location) (c : CompiledLocation)
      → compile_match net l ≡ ok c
      → (c ≡ read_location net l)
        × ((not (is_marked_pattern l) || is_some (pattern_of net l)) ≡ true)
  unfolding compile_match
  compile_match-read_location l c h = elim (Bool-cases (is_literal l.modifier)) [
    | inl e ↦ let (a, b) = literal_modifier l.modifier e in ground arith
    | inr e ↦ ground arith
  ]

  check_location-IsUsable :
      (l : Location) (seen : Seen) (paths : List Bytes) (c : CompiledLocation)
      → check_location net l seen paths ≡ ok c
      → IsUsable net l
        × (is_among l.id seen.ids ≡ false)
        × (seen.count + 1 ≤ 1024)
        × (c ≡ read_location net l)
  unfolding check_location
  check_location-IsUsable l seen paths c h = ground (arith, compile_match-read_location l c)

  -- The invariant of the loop over the locations of a server.
  abbrev IsChecked : List Location → Seen → List CompiledLocation → Seen → Type 0
  IsChecked ls seen cs seen' =
      All (IsUsable net) ls
      × AreFresh (location_ids ls) seen.ids
      × (seen'.ids ≡ with_ids (location_ids ls) seen.ids)
      × (seen'.count ≡ seen.count + length ls)
      × (seen'.count ≤ 1024)
      × (cs ≡ map (read_location net) ls)

  check_locations-IsChecked :
      (ls : List Location) (seen : Seen) (paths : List Bytes) (cs : List CompiledLocation)
      (seen' : Seen)
      → seen.count ≤ 1024
      → check_locations net ls seen paths ≡ ok (cs, seen')
      → IsChecked ls seen cs seen'
  unfolding check_locations
  check_locations-IsChecked [] seen paths cs seen' le h = ground arith
  check_locations-IsChecked (l ∷ ls) seen paths cs seen' le h =
      let next : Seen = record seen { ids = l.id ∷ seen.ids; count = seen.count + 1 } in
      let (c, hc, h') = >>=-eq-ok (check_location net l seen paths) _ h in
      let ((later, last), hl, same) =
        >>=-eq-ok (check_locations net ls next (match_key l ∷ paths)) _ h' in
      let (usable, fresh, room, here) = check_location-IsUsable l seen paths c hc in
      let ih =
        check_locations-IsChecked ls next (match_key l ∷ paths) later last (omega arith) hl in
      ground (arith, same)

  bad_id-fresh : (id : Bytes) (seen : Seen) → bad_id id seen ≡ false → is_among id seen.ids ≡ false
  bad_id-fresh id seen h = ground arith

  -- The same for one server.
  check_server-IsChecked :
      (s : ServerBlock) (seen : Seen) (cs : List CompiledLocation) (seen' : Seen)
      → seen.count ≤ 1024
      → check_server net s seen ≡ ok (cs, seen')
      → (is_among s.id seen.ids ≡ false)
        × (All (IsUsable net) s.locations)
        × AreFresh (location_ids s.locations) (s.id ∷ seen.ids)
        × (seen'.ids ≡ with_ids (location_ids s.locations) (s.id ∷ seen.ids))
        × (seen'.count ≡ seen.count + length s.locations)
        × (seen'.count ≤ 1024)
        × (cs ≡ map (read_location net) s.locations)
  unfolding check_server
  check_server-IsChecked s seen cs seen' le h =
      let start : Seen = record seen { ids = s.id ∷ seen.ids } in
      let (_, h1) = reject-eq-ok (ltb 128 (length s.name)) _ _ h in
      let (fresh, h2) = reject-eq-ok (bad_id s.id seen) _ _ h1 in
      let (_, h3) =
        reject-eq-ok (is_empty s.hosts || ltb 128 (length s.hosts) || is_empty s.locations) _ _
          h2 in
      let (named, hosts, placed) =
        >>=-eq-ok (check_hosts s.hosts start) (λ named. check_locations net s.locations named [])
          h3 in
      let kept = check_hosts-kept s.hosts start named hosts in
      let ih = check_locations-IsChecked s.locations named [] cs seen' (omega arith) placed in
      let new = bad_id-fresh s.id seen fresh in
      let fresh_ids =
        subst (λ (ids : List Bytes). AreFresh (location_ids s.locations) ids) kept.0 ih.1 in
      let ids =
        subst (λ (ids : List Bytes). seen'.ids ≡ with_ids (location_ids s.locations) ids) kept.0
          ih.2 in
      (new, ih.0, fresh_ids, ids, ih.3 ∙ ap (λ (n : ℕ). n + length s.locations) kept.1, ih.4, ih.5)

abbrev pub all_locations : List ServerBlock → List Location
all_locations [] = []
all_locations (s ∷ rest) = s.locations ++ all_locations rest

abbrev pub all_ids : List ServerBlock → List Bytes
all_ids [] = []
all_ids (s ∷ rest) = s.id ∷ location_ids s.locations ++ all_ids rest

module _ (net : Net) where
  pub check_servers-IsUsable :
      (servers : List ServerBlock) (seen : Seen)
      (result : List (ServerBlock × List CompiledLocation))
      → seen.count ≤ 1024
      → check_servers net servers seen ≡ ok result
      → All (IsUsable net) (all_locations servers)
        × AreFresh (all_ids servers) seen.ids
        × (seen.count + length (all_locations servers) ≤ 1024)
        × (result ≡ map (read_server net) servers)
  unfolding check_servers
  check_servers-IsUsable [] seen result le h = ground arith
  check_servers-IsUsable (s ∷ rest) seen result le h =
      let ((cs, next), one, h') = >>=-eq-ok (check_server net s seen) _ h in
      let (later, others, same) = >>=-eq-ok (check_servers net rest next) _ h' in
      let (new, usable, fresh, ids, count, room, located) =
        check_server-IsChecked net s seen cs next le one in
      let ih = check_servers-IsUsable rest next later room others in
      let both : (s, cs) ∷ later ≡ result = cc in
      let fresh_later =
        subst (λ (seen_ids : List Bytes). AreFresh (all_ids rest) seen_ids) ids ih.1 in
      (
        All-append (IsUsable net) s.locations (all_locations rest) usable ih.0,
        (
          new,
          AreFresh-append (location_ids s.locations) (all_ids rest) (s.id ∷ seen.ids) fresh
              fresh_later,
        ),
        omega (arith, length-append s.locations (all_locations rest)),
        rw (← both, located, ih.3) refl,
      )
