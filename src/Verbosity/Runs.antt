-- ===== src/Verbosity/Runs.antt =====
-- Runs of verbosity_filter.go, and the theorems about it at concrete inputs.
use tlog.Base.{ℕ, ◌≡◌, refl, Bool, true, false}
use tlog.Base.{none, some, [], ◌∷◌, ◌++◌, All}
use tlog.Base.Bits.{Bytes}
use tlog.Verbosity.{
  same_text, glue, split, index_byte, has_topic, match_parts, match_topics, is_negated, trim_bang,
}
use tlog.Verbosity.{Place, accepts, match_clauses, match_pattern, Key, same_key, lookup, started}
use tlog.Verbosity.{
  answered, verdict, looked, first_look, entered, second_look, turn, set_verbosity, ifv,
}
use tlog.Verbosity.Clauses.{says, match_pattern_last}
use tlog.Verbosity.Goroutines.{Calls, Sound, Right, advance, advanced, run, run-Sound}
use tlog.Verbosity.Queries.{enabled, asked, ifv-asked}

-- A pattern matches a place whose file it is.
abbrev by_file : Bytes → Place → Bool
by_file pt at = same_text pt at.file

abbrev here : Place
here = record { name = []; file = b'f' ∷ [] }

abbrev everywhere : ℕ → Place
everywhere pc = here

-- `a,!f=b+c` for the topics `b`, `a` and `x`
abbrev sample : Bytes
sample = b'a' ∷ b',' ∷ b'!' ∷ b'f' ∷ b'=' ∷ b'b' ∷ b'+' ∷ b'c' ∷ []

abbrev ask : ℕ → Key
ask t = record { pc = 1; topics = t ∷ [] }

second_clause :
    says by_file here (split b',' (b'b' ∷ [])) (b'!' ∷ b'f' ∷ b'=' ∷ b'b' ∷ b'+' ∷ b'c' ∷ [])
    ≡ some false
unfolding says accepts trim_bang is_negated index_byte match_topics match_parts split glue has_topic
    same_text
second_clause = refl

sample_parts :
    split b',' sample ≡ ((b'a' ∷ []) ∷ []) ++ ((b'!' ∷ b'f' ∷ b'=' ∷ b'b' ∷ b'+' ∷ b'c' ∷ []) ∷ [])
unfolding split glue
sample_parts = refl

match_pattern_last_example : match_pattern by_file sample here (b'b' ∷ []) ≡ false
match_pattern_last_example =
    match_pattern_last by_file sample (b'b' ∷ []) here ((b'a' ∷ []) ∷ []) []
      (b'!' ∷ b'f' ∷ b'=' ∷ b'b' ∷ b'+' ∷ b'c' ∷ []) false sample_parts second_clause tt

silent_clauses : All (λ g. says by_file here (split b',' (b'x' ∷ [])) g ≡ none) (split b',' sample)
unfolding says accepts trim_bang is_negated index_byte match_topics match_parts split glue has_topic
    same_text
silent_clauses = (refl, (refl, tt))

-- Two goroutines with the same key: both miss, and the second finds the entry of the first.
abbrev both : Calls
both = record { cache = []; calls = (ask b'a', started) ∷ (ask b'a', started) ∷ [] }

both_miss : run by_file everywhere sample both (0 ∷ 1 ∷ 1 ∷ 0 ∷ []) ≡ record {
  cache = (ask b'a', true) ∷ [];
  calls = (ask b'a', answered true) ∷ (ask b'a', answered true) ∷ [];
}
unfolding run advance advanced turn first_look second_look looked entered lookup same_key verdict
    match_pattern match_clauses accepts trim_bang is_negated index_byte match_topics match_parts
    split glue has_topic same_text
both_miss = refl

run-Sound_example :
    Sound by_file everywhere sample (run by_file everywhere sample both (0 ∷ 1 ∷ 1 ∷ 0 ∷ [])).cache
    × All
        (Right by_file everywhere sample)
        (run by_file everywhere sample both (0 ∷ 1 ∷ 1 ∷ 0 ∷ [])).calls
unfolding Sound
run-Sound_example = run-Sound by_file everywhere sample both (0 ∷ 1 ∷ 1 ∷ 0 ∷ []) tt (tt, (tt, tt))

ifv-asked_example :
    (ifv by_file everywhere
      (asked by_file everywhere
        (set_verbosity by_file everywhere sample)
        (ask b'a' ∷ ask b'b' ∷ []))
      (ask b'b')).1
    ≡ enabled by_file everywhere sample (ask b'b')
ifv-asked_example = ifv-asked by_file everywhere sample (ask b'a' ∷ ask b'b' ∷ []) (ask b'b')
