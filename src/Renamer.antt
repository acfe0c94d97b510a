-- ===== src/Renamer.antt =====
-- convert/rewriter.go: the renaming of keys by rules that are kept in the order of their paths.

pub mod Ordering
pub mod Search
mod Runs
use tlog.Base.{ℕ, zero, suc, ◌+◌, ◌-◌, ◌/◌, ◌==◌, ltb, leb, if◌then◌else◌, Bool, true, false, ◌&&◌}
use tlog.Base.{Option, none, some, List, [], ◌∷◌, ◌++◌, length, get_elem?, take, drop}
use tlog.Base.Bits.{Bytes}
use tlog.Base.Outcome.{Outcome, ok, panic, ◌>>=◌}
use tlog.Wire.Int64.{ℤ, pos, negsuc}

-- What a comparison returns: -1, 0 or 1.
pub data Order : Type 0 where
  below : Order
  same : Order
  above : Order

unfoldable pub first_order : Order → Order → Order
first_order same o = o
first_order below o = below
first_order above o = above

-- The first elements that differ decide, and then the lengths.
unfoldable pub compare_by {ℓ} : {A : Type ℓ} → (A → A → Order) → List A → List A → Order
compare_by cmp [] [] = same
compare_by cmp [] (y ∷ ys) = below
compare_by cmp (x ∷ xs) [] = above
compare_by cmp (x ∷ xs) (y ∷ ys) = first_order (cmp x y) (compare_by cmp xs ys)

unfoldable pub compare_byte : ℕ → ℕ → Order
compare_byte x y = if ltb x y then below else if ltb y x then above else same

-- `bytes.Compare`, and `cmp` of the paths
abbrev pub compare_bytes : Bytes → Bytes → Order
compare_bytes = compare_by compare_byte

abbrev pub compare_paths : List Bytes → List Bytes → Order
compare_paths = compare_by compare_bytes

-- A nil `Rename` is `none`.
pub record RenameRule : Type 0 where
  pub path : List Bytes
  pub rename : Option Bytes
  pub prefix : Bytes
  pub remove : Bool

pub data RuleError : Type 0 where
  no_error : RuleError
  fallback_error : RuleError
  other_error : ℕ → RuleError

abbrev pub Rewritten : Type 0
Rewritten = Outcome (Bytes × ℕ × RuleError)

-- A `RewriterRule`, on the buffer, the event, the path, the start of the key and that of the value.
abbrev pub Rule : Type 0
Rule = Bytes → Bytes → List Bytes → ℤ → ℕ → Rewritten

-- The decoder and the encoder of nikand.dev/go/cbor, and `sort.Slice` by the paths.
pub record Wiring : Type 0 where
  pub skip : Bytes → ℕ → Outcome ℕ
  pub read_bytes : Bytes → ℤ → Outcome (Bytes × ℕ)
  pub string_tag : ℕ → Bytes
  pub sort_rules : List RenameRule → List RenameRule

pub record KeyRenamer : Type 0 where
  pub rules : List RenameRule
  pub rewriter : Option Rule
  pub fallback : Option Rule

-- `p[st:end]`
unfoldable pub part : Bytes → ℕ → ℕ → Outcome Bytes
part p st end = if leb st end && leb end (length p) then ok (take (end - st) (drop st p)) else panic

-- `sort.Search`, on fuel for its rounds.
unfoldable pub search : ℕ → (ℕ → Bool) → ℕ → ℕ → ℕ
search zero f i j = i
search (suc fuel) f i j =
    let h = (i + j) / 2 in
    let before = search fuel f i h in
    let after = search fuel f (h + 1) j in if ltb i j then (if f h then before else after) else i

unfoldable pub is_above : Order → Bool
is_above above = true
is_above _ = false

unfoldable pub is_same : Order → Bool
is_same same = true
is_same _ = false

-- What `sort.Search` asks of the rule at an index.
unfoldable pub not_after : List Bytes → Option RenameRule → Bool
not_after path none = false
not_after path (some r) = if is_above (compare_paths path r.path) then false else true

unfoldable pub rule_for : List Bytes → Option RenameRule → Option RenameRule
rule_for path none = none
rule_for path (some r) = if is_same (compare_paths path r.path) then some r else none

unfoldable pub lookup_rule : List RenameRule → List Bytes → Option RenameRule
lookup_rule rules path = rule_for path (
    get_elem? rules
      (search (length rules + 1) (λ i. not_after path (get_elem? rules i)) 0 (length rules)))

unfoldable pub fall_back : Option Rule → Rule
fall_back none b p path kst st = ok (b, st, fallback_error)
fall_back (some f) b p path kst st = f b p path kst st

module _ (w : Wiring) where
  -- `KeyRenamer.Append`
  unfoldable pub append_rules : KeyRenamer → List RenameRule → KeyRenamer
  append_rules r new = record r { rules = w.sort_rules (r.rules ++ new) }

  unfoldable pub new_name : Option Bytes → Bytes → Bytes
  new_name none key = key
  new_name (some name) key = name

  -- The value: another rule rewrites it, or it is copied.
  unfoldable pub rewrite_value : Option Rule → Rule
  rewrite_value (some f) b p path kst st = f b p path (negsuc 0) st
  rewrite_value none b p path kst st =
      w.skip p st >>= (λ end. part p st end >>= (λ v. ok (b ++ v, end, no_error)))

  unfoldable pub rename_key :
      Option Rule → RenameRule → Bytes → Bytes → List Bytes → ℕ → Bytes × ℕ → Rewritten
  rename_key rewriter rule b p path st (key, kend) =
      let name = rule.prefix ++ new_name rule.rename key in
      part p kend st >>= (λ between.
        rewrite_value rewriter (b ++ (w.string_tag (length name) ++ (name ++ between))) p path
          (negsuc 0) st)

  unfoldable pub rewrite_by : KeyRenamer → Option RenameRule → Rule
  rewrite_by r none b p path kst st = fall_back r.fallback b p path kst st
  rewrite_by r (some rule) b p path kst st =
      if rule.remove
      then w.skip p st >>= (λ end. ok (b, end, no_error))
      else w.read_bytes p kst >>= rename_key r.rewriter rule b p path st

  -- `KeyRenamer.Rewrite`
  unfoldable pub rewrite : KeyRenamer → Rule
  rewrite r b p path kst st = rewrite_by r (lookup_rule r.rules path) b p path kst st
