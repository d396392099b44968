-- ===== src/Policy/Source.antt =====
-- internal/bastion/service.go: the allow list of source addresses. Addresses and prefixes are those
-- of the package `net/netip`, taken as a record of its operations.
use gosshd_bastion.Base.{
  ℕ, Bool, true, false, ◌&&◌, ◌||◌, List, [], ◌∷◌, ◌++◌, Option, none, some, ◌==◌, if◌then◌else◌,
  is_empty,
}
use gosshd_bastion.Base.Bytes.{Bytes, codes, bytes_eq, has_byte, cut, to_lower, trim_space}
use gosshd_bastion.Policy.{CommandPolicy, Decision, decide_as, decision_deny}

-- `netip.Addr` and `netip.Prefix`; an error of a parser is `none`, `at_most a b` is
-- `a.Compare(b) <= 0`, and `same a b` is `a == b`.
pub record Netip : Type 1 where
  pub Addr : Type 0
  pub Prefix : Type 0
  pub parse_addr : Bytes → Option Addr
  pub parse_prefix : Bytes → Option Prefix
  pub prefix_contains : Prefix → Addr → Bool
  pub at_most : Addr → Addr → Bool
  pub same : Addr → Addr → Bool
  pub is_private : Addr → Bool
  pub is_loopback : Addr → Bool

abbrev is_separator : ℕ → Bool
is_separator c = c == b',' || c == b'\n' || c == b'\r' || c == b'\t' || c == b';' || c == b' '

-- `strings.FieldsFunc`: the maximal runs of bytes that are no separators; `field` is the run that
-- is being read.
fields : Bytes → Bytes → List Bytes
fields field [] = if is_empty field then [] else field ∷ []
fields field (c ∷ cs) =
    let rest = fields (if is_separator c then [] else field ++ c ∷ []) cs in
    if is_separator c && (if is_empty field then false else true) then field ∷ rest else rest

keep_visible : List Bytes → List Bytes
keep_visible [] = []
keep_visible (f ∷ fs) =
    let item = trim_space f in
    let rest = keep_visible fs in if is_empty item then rest else item ∷ rest

unfoldable pub split_allowlist : Bytes → List Bytes
unfolding fields keep_visible trim_space
split_allowlist raw = keep_visible (fields [] raw)

-- "内网" in UTF-8.
abbrev intranet_zh : Bytes
intranet_zh = 0xe5 ∷ 0x86 ∷ 0x85 ∷ 0xe7 ∷ 0xbd ∷ 0x91 ∷ []

module _ (n : Netip) where
  open n use {
    Addr, parse_addr, parse_prefix, prefix_contains, at_most, same, is_private, is_loopback,
  }

  in_range : Addr → Option Addr → Option Addr → Bool
  in_range addr (some start) (some end) = at_most start addr && at_most addr end
  in_range addr (some start) none = false
  in_range addr none end = false

  -- Whether one item of the list lets the address in.
  unfoldable pub item_allows : Addr → Bytes → Bool
  unfolding in_range bytes_eq to_lower has_byte cut trim_space
  item_allows addr item =
      let lower = to_lower item in
      if bytes_eq lower (codes "private")
        || bytes_eq lower (codes "intranet")
        || bytes_eq lower intranet_zh
      then is_private addr || is_loopback addr
      else if has_byte b'/' item
      then elim (parse_prefix item) [ none ↦ false | some prefix ↦ prefix_contains prefix addr ]
      else elim (cut b'-' item) [
        | some (before, after) ↦
            in_range addr (parse_addr (trim_space before)) (parse_addr (trim_space after))
        | none ↦ elim (parse_addr item) [ none ↦ false | some exact ↦ same exact addr ]
      ]

  any_item_allows : Addr → List Bytes → Bool
  unfolding item_allows
  any_item_allows addr [] = false
  any_item_allows addr (item ∷ items) = item_allows addr item || any_item_allows addr items

  unfoldable pub source_ip_allowed : Bytes → Bytes → Bool
  unfolding any_item_allows split_allowlist trim_space
  source_ip_allowed allowlist source = elim (parse_addr (trim_space source)) [
    | none ↦ false
    | some addr ↦ any_item_allows addr (split_allowlist allowlist)
  ]

  -- A denial, or `none` where the policy lets the source in.
  unfoldable pub evaluate_source_ip : CommandPolicy → Bytes → Option Decision
  unfolding source_ip_allowed trim_space
  evaluate_source_ip policy source =
      if is_empty (trim_space policy.ip_allowlist)
      then none
      else if source_ip_allowed policy.ip_allowlist source
      then none
      else some (decide_as decision_deny (codes "source IP not allowed by policy: " ++ policy.name))
