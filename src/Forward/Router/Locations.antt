-- ===== src/Forward/Router/Locations.antt =====
-- Which location of a server has a path, read off the list of its locations without tables or sorting.
use gosshd_bastion.Base.{
  ℕ, length, sym, Bool, true, false, not, ◌&&◌, List, [], ◌∷◌, ◌++◌, Option, none, some,
  if◌then◌else◌, ◌≡◌, refl, ap, ap₂, ◌∙◌, arith, append_assoc, append-nil, Bool-cases, inl, inr,
}
use gosshd_bastion.Base.Bytes.{Bytes, codes, bytes_eq, has_prefix}
use gosshd_bastion.Base.Sorting.{largest_match, select, first_match-sort_by, largest_match-select}
use gosshd_bastion.Forward.{Location, ServerBlock, CompiledLocation}
use gosshd_bastion.Forward.Router.{
  CompiledServer, path_size, place_location, place_locations, compiled_server, find_text, or_else,
  starts, first_regex, after_prefix, match_location,
}

abbrev is_regex : CompiledLocation → Bool
is_regex l = elim l.regex [ none ↦ false | some regex ↦ true ]

-- The modifier `=`, `^~`, or neither.
abbrev is_marked : Bytes → CompiledLocation → Bool
is_marked modifier l = bytes_eq l.location.modifier modifier

abbrev is_prefix : CompiledLocation → Bool
is_prefix l = not (is_regex l) && not (is_marked (codes "=") l)

abbrev is_exact_at : Bytes → CompiledLocation → Bool
is_exact_at path l = not (is_regex l) && (is_marked (codes "=") l && bytes_eq l.location.path path)

-- The location `= path`; of several, the last one.
abbrev pub exact_location : Bytes → List CompiledLocation → Option Location
exact_location path [] = none
exact_location path (l ∷ rest) =
    or_else (exact_location path rest) (if is_exact_at path l then some l.location else none)

abbrev length_of_path : CompiledLocation → ℕ
length_of_path l = length l.location.path

-- The longest literal location that the path starts with; of several, the first one.
abbrev pub longest_prefix : Bytes → List CompiledLocation → Option CompiledLocation
longest_prefix path =
    largest_match length_of_path (λ l. is_prefix l && has_prefix l.location.path path)

-- The first location with a pattern that the path meets.
abbrev pattern_location : Bytes → List CompiledLocation → Option Location
pattern_location path [] = none
pattern_location path (l ∷ rest) = elim l.regex [
  | none ↦ pattern_location path rest
  | some regex ↦ if regex path then some l.location else pattern_location path rest
]

-- The longest literal location, if it is marked `^~` or not.
abbrev marked_prefix : Option CompiledLocation → Option Location
marked_prefix none = none
marked_prefix (some l) = if is_marked (codes "^~") l then some l.location else none

abbrev any_prefix : Option CompiledLocation → Option Location
any_prefix none = none
any_prefix (some l) = some l.location

-- In this order: `=`, the longest literal location if it is marked `^~`, patterns, the longest
-- literal location.
abbrev pub reference_location : List CompiledLocation → Bytes → Option Location
reference_location locations path =
    let longest = longest_prefix path locations in
    or_else (exact_location path locations) (
      or_else (marked_prefix longest)
        (or_else (pattern_location path locations) (any_prefix longest)))

place_location-exact :
    (path : Bytes) (l : CompiledLocation) (s : CompiledServer)
    → find_text path (place_location l s).exact
      ≡ (if is_exact_at path l then some l.location else find_text path s.exact)
unfolding place_location find_text
place_location-exact path l s = ground arith

place_location-prefixes :
    (l : CompiledLocation) (s : CompiledServer)
    → (place_location l s).prefixes ≡ (if is_prefix l then s.prefixes ++ l ∷ [] else s.prefixes)
unfolding place_location
place_location-prefixes l s = ground arith

place_location-regexes :
    (l : CompiledLocation) (s : CompiledServer)
    → (place_location l s).regexes ≡ (if is_regex l then s.regexes ++ l ∷ [] else s.regexes)
unfolding place_location
place_location-regexes l s = ground arith

place_locations-exact :
    (path : Bytes) (ls : List CompiledLocation) (s : CompiledServer)
    → find_text path (place_locations ls s).exact
      ≡ or_else (exact_location path ls) (find_text path s.exact)
unfolding place_locations
place_locations-exact path [] s = refl
place_locations-exact path (l ∷ ls) s =
    ground
      (arith, place_locations-exact path ls (place_location l s), place_location-exact path l s)

append-select {ℓ} :
    {A : Type ℓ} (wanted : A → Bool) (x : A) (xs ys : List A)
    → (if wanted x then ys ++ x ∷ [] else ys) ++ select wanted xs ≡ ys ++ select wanted (x ∷ xs)
unfolding select
append-select wanted x xs ys = elim (Bool-cases (wanted x)) [
  | inl e ↦ rw e (append_assoc ys (x ∷ []) (select wanted xs))
  | inr e ↦ rw e
]

place_locations-prefixes :
    (ls : List CompiledLocation) (s : CompiledServer)
    → (place_locations ls s).prefixes ≡ s.prefixes ++ select is_prefix ls
unfolding place_locations
place_locations-prefixes [] s = unfold select in rw append-nil
place_locations-prefixes (l ∷ ls) s =
    place_locations-prefixes ls (place_location l s)
    ∙ rw (place_location-prefixes l s) (append-select is_prefix l ls s.prefixes)

place_locations-regexes :
    (ls : List CompiledLocation) (s : CompiledServer)
    → (place_locations ls s).regexes ≡ s.regexes ++ select is_regex ls
unfolding place_locations
place_locations-regexes [] s = unfold select in rw append-nil
place_locations-regexes (l ∷ ls) s =
    place_locations-regexes ls (place_location l s)
    ∙ rw (place_location-regexes l s) (append-select is_regex l ls s.regexes)

place_locations-id :
    (ls : List CompiledLocation) (s : CompiledServer) → (place_locations ls s).id ≡ s.id
unfolding place_locations place_location
place_locations-id [] s = refl
place_locations-id (l ∷ ls) s = place_locations-id ls (place_location l s) ∙ ground arith

first_regex-select :
    (path : Bytes) (ls : List CompiledLocation)
    → first_regex path (select is_regex ls) ≡ first_regex path ls
unfolding first_regex select
first_regex-select path [] = refl
first_regex-select path (l ∷ ls) = ground (arith, first_regex-select path ls)

or_else-none {ℓ} : {A : Type ℓ} (a : Option A) → or_else a none ≡ a
or_else-none none = refl
or_else-none (some a) = refl

first_regex-pattern_location :
    (path : Bytes) (ls : List CompiledLocation) → first_regex path ls ≡ pattern_location path ls
unfolding first_regex
first_regex-pattern_location path [] = refl
first_regex-pattern_location path (l ∷ ls) = ground (arith, first_regex-pattern_location path ls)

-- The choice behind the exact locations, whatever the longest literal one is.
after_prefix-order :
    (path : Bytes) (ls : List CompiledLocation) (longest : Option CompiledLocation)
    → after_prefix path (select is_regex ls) longest
      ≡ or_else (marked_prefix longest) (or_else (pattern_location path ls) (any_prefix longest))
unfolding after_prefix
after_prefix-order path ls none =
    first_regex-select path ls
    ∙ first_regex-pattern_location path ls
    ∙ sym (or_else-none (pattern_location path ls))
after_prefix-order path ls (some l) =
    let found = first_regex-select path ls ∙ first_regex-pattern_location path ls in
    elim (Bool-cases (is_marked (codes "^~") l)) [
      | inl yes_ ↦ rw yes_ refl
      | inr no_ ↦ rw (no_, found) refl
    ]

pub match_location-eq :
    (block : ServerBlock) (ls : List CompiledLocation) (path : Bytes)
    → match_location (compiled_server block ls) path ≡ reference_location ls path
unfolding match_location compiled_server
match_location-eq block ls path =
    let start : CompiledServer = record {
      id = block.id;
      exact = [];
      prefixes = [];
      regexes = [];
    } in
    let placed = place_locations ls start in
    let exact = place_locations-exact path ls start in
    let prefix =
      first_match-sort_by path_size (starts path) placed.prefixes
      ∙ ap (largest_match path_size (starts path)) (place_locations-prefixes ls start)
      ∙ largest_match-select path_size (starts path) is_prefix ls in
    ap₂ or_else (exact ∙ or_else-none (exact_location path ls)) (
      ap₂ (after_prefix path) (place_locations-regexes ls start) prefix
      ∙ after_prefix-order path ls (longest_prefix path ls))

pub compiled_server-id :
    (block : ServerBlock) (ls : List CompiledLocation) → (compiled_server block ls).id ≡ block.id
unfolding compiled_server
compiled_server-id block ls =
    place_locations-id ls (record { id = block.id; exact = []; prefixes = []; regexes = [] })
