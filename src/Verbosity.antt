-- ===== src/Verbosity.antt =====
-- verbosity_filter.go: which messages a logger lets through.
pub mod Clauses
pub mod Goroutines
pub mod Queries
mod Runs
use tlog.Base.{ℕ, zero, suc, ◌+◌, ◌==◌, if◌then◌else◌, Bool, true, false, ◌&&◌, ◌||◌, not}
use tlog.Base.{Option, none, some, List, [], ◌∷◌, get_elem?, set, take, drop}
use tlog.Base.Bits.{Bytes}

unfoldable pub same_text : Bytes → Bytes → Bool
same_text [] [] = true
same_text [] (y ∷ b) = false
same_text (x ∷ a) [] = false
same_text (x ∷ a) (y ∷ b) = x == y && same_text a b

-- `strings.Split` by one byte.
unfoldable pub glue : ℕ → List Bytes → List Bytes
glue c [] = (c ∷ []) ∷ []
glue c (p ∷ ps) = (c ∷ p) ∷ ps

unfoldable pub split : ℕ → Bytes → List Bytes
split sep [] = [] ∷ []
split sep (c ∷ s) = if c == sep then [] ∷ split sep s else glue c (split sep s)

-- `strings.IndexByte`
unfoldable pub index_byte : Bytes → ℕ → Option ℕ
index_byte [] c = none
index_byte (x ∷ s) c =
    if x == c then some 0 else elim (index_byte s c) [ none ↦ none | some i ↦ some (suc i) ]

-- `for _, t := range ts { if ff == t { return true } }`
unfoldable pub has_topic : Bytes → List Bytes → Bool
has_topic ff [] = false
has_topic ff (t ∷ ts) = same_text ff t || has_topic ff ts

abbrev pub star : Bytes
star = b'*' ∷ []

-- `matchTopics`
unfoldable pub match_parts : List Bytes → List Bytes → Bool
match_parts [] ts = false
match_parts ([] ∷ ps) ts = match_parts ps ts
match_parts ((x ∷ ff) ∷ ps) ts =
    let rest = match_parts ps ts in
    if same_text (x ∷ ff) star then true else if has_topic (x ∷ ff) ts then true else rest

unfoldable pub match_topics : Bytes → List Bytes → Bool
match_topics filt ts = match_parts (split b'+' filt) ts

-- `strings.HasPrefix(s, "!")` and `strings.TrimPrefix(s, "!")`
unfoldable pub is_negated : Bytes → Bool
is_negated [] = false
is_negated (x ∷ s) = x == b'!'

unfoldable pub trim_bang : Bytes → Bytes
trim_bang s = if is_negated s then drop 1 s else s

-- What stands at a program counter: the name of the function and the file.
pub record Place : Type 0 where
  pub name : Bytes
  pub file : Bytes

-- `matchPath(pt, file) || matchType(pt, name)`, which are made of regular expressions, is a parameter.
module _ (match_place : Bytes → Place → Bool) where
  -- A clause without its `!` accepts: its pattern, where it has one, and its topics.
  unfoldable pub accepts : Bytes → Place → List Bytes → Bool
  accepts ff at ts = elim (index_byte ff b'=') [
    | none ↦ match_topics ff ts
    | some p ↦
        if not (same_text (take p ff) []) && not (match_place (take p ff) at)
        then false
        else match_topics (drop (suc p) ff) ts
  ]

  -- The loop of `matchPattern` over the clauses.
  unfoldable pub match_clauses : List Bytes → Place → List Bytes → Bool → Bool
  match_clauses [] at ts r = r
  match_clauses ([] ∷ ffs) at ts r = match_clauses ffs at ts r
  match_clauses ((x ∷ ff) ∷ ffs) at ts r =
      match_clauses ffs at ts
        (if accepts (trim_bang (x ∷ ff)) at ts then not (is_negated (x ∷ ff)) else r)

  unfoldable pub match_pattern : Bytes → Place → Bytes → Bool
  match_pattern f at topics = match_clauses (split b',' f) at (split b',' topics) (is_negated f)

-- `fkey`, and the map of a `filter`.
pub record Key : Type 0 where
  pub pc : ℕ
  pub topics : Bytes

unfoldable pub same_key : Key → Key → Bool
same_key a b = a.pc == b.pc && same_text a.topics b.topics

abbrev pub Cache : Type 0
Cache = List (Key × Bool)

unfoldable pub lookup : Cache → Key → Option Bool
lookup [] k = none
lookup ((k', r) ∷ c) k = if same_key k' k then some r else lookup c k

-- A goroutine in `match` for a key: before its first look, between its looks, or back with an answer.
pub data Phase : Type 0 where
  started : Phase
  missed : Phase
  answered : Bool → Phase

module _ (match_place : Bytes → Place → Bool) (place_of : ℕ → Place) where
  unfoldable pub verdict : Bytes → Key → Bool
  verdict f k = match_pattern match_place f (place_of k.pc) k.topics

  -- The look under the read lock, with what it found.
  unfoldable pub looked : Cache → Option Bool → Cache × Phase
  looked c none = (c, missed)
  looked c (some r) = (c, answered r)

  unfoldable pub first_look : Cache → Key → Cache × Phase
  first_look c k = looked c (lookup c k)

  -- What happens under the write lock: the second look, and the entry where it found nothing.
  unfoldable pub entered : Bytes → Cache → Key → Option Bool → Cache × Phase
  entered f c k none = ((k, verdict f k) ∷ c, answered (verdict f k))
  entered f c k (some r) = (c, answered r)

  unfoldable pub second_look : Bytes → Cache → Key → Cache × Phase
  second_look f c k = entered f c k (lookup c k)

  unfoldable pub turn : Bytes → Cache → Key → Phase → Cache × Phase
  turn f c k started = first_look c k
  turn f c k missed = second_look f c k
  turn f c k (answered r) = (c, answered r)

  -- `match` by a goroutine that is not disturbed.
  unfoldable pub match : Bytes → Cache → Key → Cache × Phase
  match f c k = let (c', p) = first_look c k in turn f c' k p

  -- The `filter` of a `Logger`: nil, or the text of a filter and its map.
  abbrev pub Filter : Type 0
  Filter = Option (Bytes × Cache)

  -- `SetVerbosity`: a new filter, with an empty map.
  unfoldable pub set_verbosity : Bytes → Filter
  set_verbosity [] = none
  set_verbosity (x ∷ v) = some (x ∷ v, [])

  -- `Verbosity`
  unfoldable pub verbosity : Filter → Bytes
  verbosity none = []
  verbosity (some (f, c)) = f

  unfoldable pub said : Bytes → Cache × Phase → Filter × Bool
  said f (c, answered r) = (some (f, c), r)
  said f (c, _) = (some (f, c), false)

  -- `ifv` of a logger that is not nil, called at a program counter with topics.
  unfoldable pub ifv : Filter → Key → Filter × Bool
  ifv none k = (none, false)
  ifv (some (f, c)) k = if same_text f star then (some (f, c), true) else said f (match f c k)

  -- `Logger.V`, `If` and `IfDepth`, whose logger may be nil: what `ifv` says.
  unfoldable pub is_enabled : Option Filter → Key → Option Filter × Bool
  is_enabled none k = (none, false)
  is_enabled (some l) k = let (l', r) = ifv l k in (some l', r)
