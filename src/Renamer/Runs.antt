-- ===== src/Renamer/Runs.antt =====
-- Runs of the key renamer of convert/rewriter.go.
use tlog.Base.{ℕ, ◌+◌, ◌≡◌, Bool, true, false, Option, none, some, List, [], ◌∷◌}
use tlog.Base.{if◌then◌else◌}
use tlog.Base.Bits.{Bytes}
use tlog.Base.Outcome.{ok}
use tlog.Wire.Int64.{pos}
use tlog.Renamer.{
  first_order, compare_by, compare_byte, compare_paths, RenameRule, no_error, Wiring, KeyRenamer,
  part, is_same, is_above, append_rules, new_name, rename_key, rewrite_value, rewrite_by, rewrite,
}
use tlog.Renamer.Search.{AreSorted, first_rule, rewrite-first_rule}

abbrev rule : ℕ → Option Bytes → Bool → RenameRule
rule c name remove = record {
  path = (c ∷ []) ∷ [];
  rename = name;
  prefix = b'p' ∷ [];
  remove = remove;
}

abbrev insert_rule : RenameRule → List RenameRule → List RenameRule
insert_rule r [] = r ∷ []
insert_rule r (x ∷ xs) =
    let rest = insert_rule r xs in
    if is_above (compare_paths r.path x.path) then x ∷ rest else r ∷ (x ∷ xs)

abbrev insertion_sort : List RenameRule → List RenameRule
insertion_sort [] = []
insertion_sort (r ∷ rs) = insert_rule r (insertion_sort rs)

-- Keys and values of one byte.
abbrev wiring : Wiring
wiring = record {
  skip = λ p st. ok (st + 1);
  read_bytes = λ p st. ok (b'k' ∷ [], 1);
  string_tag = λ n. (0x60 + n) ∷ [];
  sort_rules = insertion_sort;
}

abbrev no_rules : KeyRenamer
no_rules = record { rules = []; rewriter = none; fallback = none }

abbrev three_rules : List RenameRule
three_rules = rule 7 none true ∷ rule 3 (some (b'n' ∷ [])) false ∷ rule 5 none false ∷ []

three_rules-AreSorted : AreSorted (insertion_sort three_rules)
unfolding compare_by compare_byte first_order is_above
three_rules-AreSorted =
    (((λ e. absurd (cc)), ((λ e. absurd (cc)), tt)), (((λ e. absurd (cc)), tt), (tt, tt)))

abbrev third_path : List Bytes
third_path = (3 ∷ []) ∷ []

rewrite-first_rule_example :
    rewrite wiring
      (append_rules wiring no_rules three_rules)
      []
      (b'k' ∷ 9 ∷ [])
      third_path
      (pos 0)
      1
    ≡ ok (0x62 ∷ b'p' ∷ b'n' ∷ 9 ∷ [], 2, no_error)
unfolding append_rules rewrite_by rename_key rewrite_value new_name part first_rule compare_by
    compare_byte first_order is_above is_same
rewrite-first_rule_example =
    rewrite-first_rule wiring no_rules three_rules three_rules-AreSorted [] (b'k' ∷ 9 ∷ [])
      third_path (pos 0) 1
