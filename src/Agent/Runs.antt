-- ===== src/Agent/Runs.antt =====
-- Runs of agent/agent.go and agent/query.go, and the theorems about it at concrete inputs.
use tlog.Base.{ℕ, suc, ◌-◌, ◌%◌, ◌≡◌, refl, arith, false}
use tlog.Base.{none, some, [], ◌∷◌, ◌++◌, inl, length}
use tlog.Base.Bits.{Bytes}
use tlog.Agent.{
  Env, Sizes, Stream, pad_file, filled, put, put_first, extended, indexed, put_block, after_padding,
}
use tlog.Agent.{in_blocks, needs_file, to_file, compressed, write_file}
use tlog.Agent.Blocks.{Honest, Good}
use tlog.Agent.Places.{Places, Kept, write_file-Kept}
use tlog.Base.{◌+◌, ◌==◌, if◌then◌else◌, true}
use tlog.Agent.Subs.{Subs, subscribe, position, cut_at, cut, unsubscribe, Grows, Ordered}
use tlog.Base.{List}
use tlog.Agent.Subs.{or_else, Call, joins, leaves, after_call, calls, calls-Ordered}

-- A compressor that changes nothing, and files that are the list of all bytes written.
abbrev plain_env : Env
plain_env = record {
  World = Bytes;
  Ref = ℕ;
  Zip = ℕ;
  compress = λ z b. (suc z, b, none);
  reset = λ z. 0;
  part_of = λ t. t - t % 10;
  open_file = λ wd part ts. (wd, inl part);
  write = λ wd h b. (wd ++ b, length b, none);
  can_seek = λ h. false;
  truncate = λ wd h off. (wd, none);
  seek = λ wd h off. (wd, off, none);
}

abbrev sizes : Sizes
sizes = record { file_size = 100; block_size = 4 }

-- Three bytes of a block are written.
abbrev three_written : Stream ℕ ℕ
three_written = record {
  file = some (record { w = 20; part = 20; ts = 23; off = 3; index = (0, 23) ∷ [] });
  z = 1;
  boff = 3;
}

pads_the_block : write_file plain_env sizes (1 ∷ 2 ∷ 3 ∷ []) three_written (7 ∷ 8 ∷ []) 25 ≡ (
  1 ∷ 2 ∷ 3 ∷ 0 ∷ 7 ∷ 8 ∷ [],
  record {
    file = some (record { w = 20; part = 20; ts = 23; off = 6; index = (0, 23) ∷ [] });
    z = 1;
    boff = 2;
  },
  2,
  none,
)
unfolding write_file compressed to_file needs_file in_blocks after_padding pad_file filled put_block
    put_first put indexed extended
pads_the_block = refl

-- Files as their sizes, which are cut to be padded.
abbrev set_size : (ℕ → ℕ) → ℕ → ℕ → ℕ → ℕ
set_size wd h n x = if x == h then n else wd x

abbrev sized_env : Env
sized_env = record {
  World = ℕ → ℕ;
  Ref = ℕ;
  Zip = ℕ;
  compress = λ z b. (suc z, b, none);
  reset = λ z. 0;
  part_of = λ t. t - t % 10;
  open_file = λ wd part ts. (set_size wd part 0, inl part);
  write = λ wd h b. (set_size wd h (wd h + length b), length b, none);
  can_seek = λ h. true;
  truncate = λ wd h off. (set_size wd h off, none);
  seek = λ wd h off. (wd, off, none);
}

sized_env-Honest : Honest sized_env sizes
sized_env-Honest = record { sought_there = λ wd h off e. refl; wrote_all = λ wd h b e. refl }

set_size_here : (wd : ℕ → ℕ) (h n : ℕ) → set_size wd h n h ≡ n
set_size_here wd h n = ground arith

sized_places : Places sized_env sizes
sized_places = record {
  at = λ wd h. wd h;
  written_at = λ wd h b e. set_size_here wd h _;
  sought_at = λ wd h off e. set_size_here wd h off;
  uncut_at = λ wd h off n e. absurd (cc e);
  new_at = λ wd part ts h e. let same : part ≡ h = cc e in rw (← same) (set_size_here wd part 0);
  unopened_at = λ wd part ts n h e. absurd (cc e);
}

abbrev three_bytes : ℕ → ℕ
three_bytes h = 3

write_file-Kept_example :
    Good sized_env sizes (write_file sized_env sizes three_bytes three_written (7 ∷ 8 ∷ []) 25).1
    × Kept sized_env sizes sized_places
        (write_file sized_env sizes three_bytes three_written (7 ∷ 8 ∷ []) 25)
unfolding sized_places
write_file-Kept_example =
    write_file-Kept sized_env sizes sized_places three_bytes three_written (7 ∷ 8 ∷ []) 25
      sized_env-Honest (omega arith)
      (record { inside = omega arith; start = refl; single = omega arith }) refl

-- Two subscribers, of which the first leaves, and a third.
abbrev nobody : Subs ℕ
nobody = record { last = 0; subs = [] }

abbrev some_calls : List (Call ℕ)
some_calls = joins 70 ∷ joins 71 ∷ leaves 1 ∷ leaves 9 ∷ joins 72 ∷ []

the_second_and_the_third :
    calls nobody some_calls ≡ record { last = 3; subs = (2, 71) ∷ (3, 72) ∷ [] }
unfolding calls after_call or_else subscribe unsubscribe cut position cut_at
the_second_and_the_third = refl

calls-Ordered_example : Ordered (calls nobody some_calls)
unfolding Grows
calls-Ordered_example = calls-Ordered nobody some_calls (omega arith)

abbrev two_left : Subs ℕ
two_left = record { last = 3; subs = (2, 71) ∷ (3, 72) ∷ [] }
