-- ===== src/Cve/Index.antt =====
-- The index of src/cve.cpp: its tables, how they are loaded, and how a name is resolved.
use mathlib.Core.Option
use nano_sensor.Base.{
  ℕ, zero, suc, ◌+◌, Bool, true, Option, none, some, List, [], ◌∷◌, ◌++◌, ltb, leb, ◌==◌,
  if◌then◌else◌, length, take, drop, get_or,
}
use nano_sensor.Text.{Bytes, codes, bytes_eq, starts_with, find, rfind}
use nano_sensor.Cve.Names.{is_empty, split_from, split_tabs, trim, normalize_name}

pub record CveRule : Type 0 where
  pub cve_id : Bytes
  pub vendor : Bytes
  pub product : Bytes
  pub version : Bytes
  pub start_incl : Bytes
  pub start_excl : Bytes
  pub end_incl : Bytes
  pub end_excl : Bytes
  pub cvss_score : ℕ
  pub cvss_severity : Bytes
  pub cvss_version : Bytes

-- An unordered_map is an association list with one entry for a key.
pub record CveIndex : Type 0 where
  pub by_product : List (Bytes × List CveRule)
  pub exact : List (Bytes × Bytes)
  pub prefixes : List (Bytes × Bytes)
  pub rule_count : ℕ

pub data IndexError : Type 0 where
  cannot_open empty_index unexpected_header cannot_open_aliases : IndexError

abbrev pub lookup {ℓ} : {A : Type ℓ} → Bytes → List (Bytes × A) → Option A
lookup key [] = none
lookup key (e ∷ es) = let rest = lookup key es in if bytes_eq key e.0 then some e.1 else rest

-- exact_[key] = value
abbrev pub assign {ℓ} : {A : Type ℓ} → Bytes → A → List (Bytes × A) → List (Bytes × A)
assign key value [] = (key, value) ∷ []
assign key value (e ∷ es) =
    let rest = assign key value es in if bytes_eq key e.0 then (key, value) ∷ es else e ∷ rest

-- by_product_[key].push_back(r)
abbrev pub push_rule : Bytes → CveRule → List (Bytes × List CveRule) → List (Bytes × List CveRule)
push_rule key r [] = (key, r ∷ []) ∷ []
push_rule key r (e ∷ es) =
    let rest = push_rule key r es in
    if bytes_eq key e.0 then (e.0, e.1 ++ (r ∷ [])) ∷ es else e ∷ rest

abbrev pub product_key : Bytes → Bytes → Bytes
product_key vendor product = vendor ++ (b':' ∷ product)

abbrev pub column : List Bytes → ℕ → Bytes
column c i = get_or c i []

-- line.empty() || line[0] == '#'
abbrev pub is_comment : Bytes → Bool
is_comment [] = true
is_comment (c ∷ cs) = c == b'#'

-- std::strtod on the score column is an argument, with its result in tenths.
module _ (strtod : Bytes → ℕ) where
  abbrev pub rule_of : List Bytes → CveRule
  rule_of c = record {
    cve_id = column c 0;
    vendor = column c 1;
    product = column c 2;
    version = column c 3;
    start_incl = column c 5;
    start_excl = column c 6;
    end_incl = column c 7;
    end_excl = column c 8;
    cvss_score = if is_empty (column c 9) then 0 else strtod (column c 9);
    cvss_severity = column c 10;
    cvss_version = column c 11;
  }

  abbrev pub add_rule : CveRule → CveIndex → CveIndex
  add_rule r x = record x {
    by_product = push_rule (product_key r.vendor r.product) r x.by_product;
    rule_count = x.rule_count + 1;
  }

  unfoldable pub rule_loop : List Bytes → CveIndex → CveIndex
  rule_loop [] x = x
  rule_loop (line ∷ lines) x =
      let c = split_tabs line in
      let skipped = rule_loop lines x in
      let added = rule_loop lines (add_rule (rule_of c) x) in
      if is_comment line then skipped else if ltb (length c) 12 then skipped else added

  abbrev pub header : Bytes
  header = codes "cve_id\tvendor\tproduct\tversion"

  abbrev pub load_lines : List Bytes → CveIndex → Option IndexError × CveIndex
  load_lines [] x = (some empty_index, x)
  load_lines (line ∷ lines) x =
      if starts_with header line then (none, rule_loop lines x) else (some unexpected_header, x)

  -- The content of the file, or none if it does not open.
  unfoldable pub load_rules : Option Bytes → CveIndex → Option IndexError × CveIndex
  load_rules none x = (some cannot_open, x)
  load_rules (some text) x = load_lines (split_from 10 [] text) x

abbrev pub add_alias : Bytes → Bytes → Bytes → CveIndex → CveIndex
add_alias kind pattern target x =
    if bytes_eq kind (codes "exact")
    then record x { exact = assign pattern target x.exact }
    else if bytes_eq kind (codes "prefix")
    then record x { prefixes = x.prefixes ++ ((pattern, target) ∷ []) }
    else x

unfoldable pub alias_loop : List Bytes → CveIndex → CveIndex
alias_loop [] x = x
alias_loop (raw ∷ lines) x =
    let line = trim raw in
    let c = split_tabs line in
    let target = product_key (trim (column c 2)) (trim (column c 3)) in
    let skipped = alias_loop lines x in
    let added = alias_loop lines (add_alias (trim (column c 0)) (trim (column c 1)) target x) in
    if is_comment line then skipped else if ltb (length c) 4 then skipped else added

-- std::sort by descending length. It leaves the order of patterns of one length open; here it is
-- that of the file.
unfoldable pub insert_prefix : Bytes × Bytes → List (Bytes × Bytes) → List (Bytes × Bytes)
insert_prefix p [] = p ∷ []
insert_prefix p (q ∷ qs) =
    let rest = insert_prefix p qs in if leb (length q.0) (length p.0) then p ∷ q ∷ qs else q ∷ rest

unfoldable pub sort_prefixes : List (Bytes × Bytes) → List (Bytes × Bytes)
sort_prefixes [] = []
sort_prefixes (p ∷ ps) = insert_prefix p (sort_prefixes ps)

unfoldable pub load_aliases : Option Bytes → CveIndex → Option IndexError × CveIndex
load_aliases none x = (some cannot_open_aliases, x)
load_aliases (some text) x =
    let x' = alias_loop (split_from 10 [] text) x in
    (none, record x' { prefixes = sort_prefixes x'.prefixes })

-- substr(0, colon) and substr(colon + 1), where npos + 1 is 0.
abbrev pub split_at : Option ℕ → Bytes → Bytes × Bytes
split_at none target = (target, target)
split_at (some colon) target = (take colon target, drop (colon + 1) target)

abbrev pub split_target : Bytes → Bytes × Bytes
split_target target = split_at (find b':' target) target

unfoldable pub first_prefix : Bytes → List (Bytes × Bytes) → Option (Bytes × Bytes)
first_prefix norm [] = none
first_prefix norm (p ∷ ps) =
    let rest = first_prefix norm ps in if starts_with p.0 norm then some p else rest

-- The loop that drops trailing words. Each round shortens the name, so its length is enough fuel.
unfoldable pub drop_words : ℕ → List (Bytes × Bytes) → Bytes → Option Bytes
drop_words zero exact trimmed = none
drop_words (suc fuel) exact trimmed = elim (rfind b' ' trimmed) [
  | none ↦ none
  | some space ↦
      let shorter = take space trimmed in
      elim (lookup shorter exact) [
        | some target ↦ some target
        | none ↦ drop_words fuel exact shorter
      ]
]

-- The target that covers a normalized name.
unfoldable pub target_of : CveIndex → Bytes → Option Bytes
target_of x norm = elim (lookup norm x.exact) [
  | some target ↦ some target
  | none ↦ elim (first_prefix norm x.prefixes) [
    | some p ↦ some p.1
    | none ↦ drop_words (length norm + 1) x.exact norm
  ]
]

-- The vendor and the product, or none for `false`.
unfoldable pub resolve : CveIndex → Bytes → Option (Bytes × Bytes)
resolve x raw_name =
    let norm = normalize_name raw_name in
    if is_empty norm then none else Option.map split_target (target_of x norm)
