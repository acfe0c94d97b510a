-- ===== src/Logger/Sequence.antt =====
-- Calls of one logger of tlog.go in the order that its lock gives them, and a `Reader` of tlwire on what they
-- wrote.
use tlog.Base.{ℕ, ◌+◌, ◌/◌, ◌^◌, ◌≤◌, ◌<◌, ◌≡◌, refl, sym, ap, ap₂, ◌∙◌, arith}
use tlog.Base.{Option, none, some, List, [], ◌∷◌, ◌++◌, map, All, length}
use tlog.Base.{Bool-cases, inl, inr}
use tlog.Base.{Bool, true}
use tlog.Base.Bits.{Bytes}
use tlog.Base.Io.{Writer, write_all}
use tlog.Base.Outcome.{Outcome, ok, panic}
use tlog.Wire.{rfc8949}
use tlog.Wire.Int64.{ℤ}
use tlog.Wire.Reader.{Reader, ret, write_to}
use tlog.Wire.Reader.Copy.{stream_of, write_each, TakesAll, write_to-stream}
use tlog.Wire.Reader.Stream.{Streams}
use tlog.Wire.Scan.Grammar.{
  Item, Pairs, end, pair, count_pairs, encode, encode_pairs, IsItem, ArePairs,
}
use tlog.Kvs.{Any, key, append_kvs}
use tlog.Kvs.Labels.Labelled.{is_label, label, label_pairs}
use tlog.Kvs.Labels.Labelled.Loop.{Skips}
use tlog.Kvs.Labels.Labelled.Whole.{append_labels-label_pairs}
use tlog.Kvs.Layout.{append_kvs-PairBytes}
use tlog.Kvs.Pairs.{Event, PairBytes, Whole}
use tlog.Logger.{
  LogEncoder, Env, Logger, Span, Message, Written, message, newspan, finish_span, event,
  with_labels, set_labels, bytes_message, string_message, dump_context, dump_writer, wrapper_write,
  dump_write,
}
use tlog.Logger.Setup.{raw_write, set_time_now, set_callers}
use tlog.Logger.Calls.{
  LogEncodes, IsShort, One, message-One, newspan-One, finish_span-One, event-One,
}

-- `NewMessage`, `NewSpan`, `Finish`, `Event` and `SetLabels`, and a `Write` to what `IOWriter` and
-- `DumpWriter` return, `Logger.Write`, `LoggerSetTimeNow` and `LoggerSetCallers`, with their arguments.
pub data Call : Type 0 where
  message_call : Bytes → ℤ → Message → List Any → Call
  span_call : Bytes → ℤ → Bytes → List Any → Call
  finish_call : Span → List Any → Call
  event_call : Bytes → List Any → Call
  labels_call : List Any → Call
  io_call : Span → ℤ → Bytes → Call
  dump_call : Span → ℤ → Bytes → Bytes → List Any → Bytes → Call
  raw_call : Bytes → Call
  time_call : Bool → Bool → Call
  callers_call : ℤ → Bool → Call

module _ (e : LogEncoder) (env : Env) where
  open env use {State}

  unfoldable pub after_write : Written rfc8949 e env → (State → List Bytes) → List Bytes
  after_write (st, none) next = next st
  after_write (st, some b) next = b ∷ next st

  -- A panic of `SetLabels` ends the run.
  unfoldable pub after_labels : Option (Outcome Logger) → (Logger → List Bytes) → List Bytes
  after_labels none next = []
  after_labels (some panic) next = []
  after_labels (some (ok l)) next = next l

  unfoldable pub after_dump : Outcome Bytes → (Bytes → List Bytes) → List Bytes
  after_dump panic next = []
  after_dump (ok ctx) next = next ctx

  -- The slices that the calls hand to `Writer.Write`.
  unfoldable pub writes : Logger → List Call → State → List Bytes
  writes l [] st = []
  writes l (message_call id d m kvs ∷ cs) st =
      after_write (message rfc8949 e env (some l) id d m kvs st) (λ st'. writes l cs st')
  writes l (span_call par d n kvs ∷ cs) st =
      after_write (newspan rfc8949 e env (some l) par d n kvs st).0 (λ st'. writes l cs st')
  writes l (finish_call s kvs ∷ cs) st =
      after_write (finish_span rfc8949 e env (some l) s kvs st) (λ st'. writes l cs st')
  writes l (event_call id kvs ∷ cs) st =
      after_write (event rfc8949 e env (some l) id kvs st) (λ st'. writes l cs st')
  writes l (labels_call kvs ∷ cs) st =
      after_labels (set_labels rfc8949 e env l kvs) (λ l'. writes l' cs st)
  writes l (io_call s d p ∷ cs) st =
      after_write (wrapper_write rfc8949 e env (record s { logger = some l }) d p st).0
        (λ st'. writes l cs st')
  writes l (dump_call s d msg name kvs p ∷ cs) st =
      let own : Span = record s { logger = some l } in
      after_dump (dump_writer rfc8949 e env own kvs) (λ ctx.
        after_write (dump_write rfc8949 e env own d msg name ctx p st).0 (λ st'. writes l cs st'))
  writes l (raw_call p ∷ cs) st =
      after_write (st, raw_write (some l) true p) (λ st'. writes l cs st')
  writes l (time_call now nano ∷ cs) st = writes (set_time_now l now nano) cs st
  writes l (callers_call skip callers ∷ cs) st = writes (set_callers l skip callers) cs st

  -- How many of the calls write.
  unfoldable pub writing : List Call → ℕ
  writing [] = 0
  writing (labels_call kvs ∷ cs) = writing cs
  writing (time_call now nano ∷ cs) = writing cs
  writing (callers_call skip callers ∷ cs) = writing cs
  writing (_ ∷ cs) = writing cs + 1

  -- The labels are whole pairs, for which there is room.
  abbrev pub FewPairs : List Any → Type 0
  FewPairs kvs =
      (ps : Pairs) × (append_kvs rfc8949 e.kvs kvs ≡ encode_pairs ps)
      × ArePairs ps
      × (count_pairs ps ≤ length kvs / 2 + 1)
      × (length kvs / 2 + 1 ≤ length env.spaces)
      × (0 + (length kvs / 2 + 1) + length (encode_pairs ps) < 2 ^ 63)

  abbrev pub IsCall : Call → Type 0
  IsCall (message_call id d m kvs) = IsShort m × Whole key kvs
  IsCall (span_call par d n kvs) = Whole key kvs
  IsCall (finish_call s kvs) = Whole key kvs
  IsCall (event_call id kvs) = Whole key kvs
  IsCall (labels_call kvs) = FewPairs kvs
  IsCall (io_call s d p) = length p < 2 ^ 63
  IsCall (dump_call s d msg name kvs p) = Whole key kvs
  IsCall (raw_call p) = Event p
  IsCall (time_call now nano) = Unit
  IsCall (callers_call skip callers) = Unit

label-IsItem : (x : Item) → IsItem x → IsItem (label x)
unfolding label IsItem
label-IsItem x h = elim (Bool-cases (is_label x)) [ inl y ↦ rw y h | inr n ↦ rw n (omega arith, h) ]

label_pairs-ArePairs : (ps : Pairs) → ArePairs ps → ArePairs (label_pairs ps)
unfolding label_pairs IsItem
label_pairs-ArePairs end h = h
label_pairs-ArePairs (pair x y ps) h = (h.0, label-IsItem y h.1, label_pairs-ArePairs ps h.2)

-- Slices that are events, with the events.
pub record Events (bs : List Bytes) (n : ℕ) : Type 0 where
  pub items : List Item
  pub are_items : All IsItem items
  pub slices_are : bs ≡ map encode items
  pub count_is : length bs ≡ n

no_events : Events [] 0
no_events = record { items = []; are_items = tt; slices_are = refl; count_is = refl }

add_event : {b : Bytes} {bs : List Bytes} {n : ℕ} → Event b → Events bs n → Events (b ∷ bs) (n + 1)
add_event x xs = record {
  items = x.item ∷ xs.items;
  are_items = (x.is_item, xs.are_items);
  slices_are = ap₂ (λ s t. s ∷ t) x.bytes_are xs.slices_are;
  count_is = omega (arith, xs.count_is);
}

-- The bytes of slices, one after the other.
unfoldable pub joined : List Bytes → Bytes
joined [] = []
joined (b ∷ bs) = b ++ joined bs

joined-encode : (xs : List Item) → joined (map encode xs) ≡ stream_of xs
unfolding joined stream_of
joined-encode [] = refl
joined-encode (x ∷ xs) = ap (λ s. encode x ++ s) (joined-encode xs)

write_all-encode :
    (wr : Writer) (xs : List Item) (w : wr.State)
    → write_each wr w xs ≡ write_all wr w (map encode xs)
unfolding write_all write_each
write_all-encode wr [] w = refl
write_all-encode wr (x ∷ xs) w = write_all-encode wr xs (wr.write w (encode x)).0

module _ (e : LogEncoder) (env : Env) (h : LogEncodes e) (skips : Skips env.skip) where
  set_labels-PairBytes :
      (l : Logger) (kvs : List Any)
      → FewPairs e env kvs
      → (l' : Logger) × (set_labels rfc8949 e env l kvs ≡ some (ok l')) × PairBytes l'.ls
  unfolding set_labels with_labels
  set_labels-PairBytes l kvs (ps, same, are, few, long, small) = (
    record l { ls = encode_pairs (label_pairs ps) },
    rw (append_labels-label_pairs env.skip skips e.kvs env.spaces [] kvs ps same are few long small)
        refl,
    record { pairs = label_pairs ps; are_pairs = label_pairs-ArePairs ps are; bytes_are = refl },
  )

  after_write-Events :
      (l : Logger) (r : Written rfc8949 e env) (next : env.State → List Bytes) (n : ℕ)
      → One e env h (some l) r
      → ((st : env.State) → Events (next st) n)
      → Events (after_write e env r next) (n + 1)
  unfolding after_write
  after_write-Events l (st, w) next n (b, same, ev) go = rw same (add_event ev (go st))

  -- Calls of one logger, in any order, write one event each, but for `SetLabels` and the functions that
  -- set the clock and the callers, which write none: what is
  -- handed to `Writer.Write` is the bytes of the event, all of it and nothing else, where the labels at the
  -- start are whole pairs, the slices of `Logger.Write` events, the arguments of the calls append whole pairs, those of `SetLabels` few enough, and
  -- the encoders append one event each. Slices of bytes and what is printed are below 2 ^ 63 of them.
  pub writes-Events :
      (cs : List Call) (l : Logger) (st : env.State)
      → PairBytes l.ls
      → All (IsCall e env) cs
      → Events (writes e env l cs st) (writing e env cs)
  unfolding writes writing raw_write set_time_now set_callers after_labels after_dump after_write
      dump_writer dump_context wrapper_write dump_write
  writes-Events [] l st p g = no_events
  writes-Events (message_call id d m kvs ∷ cs) l st p g =
      after_write-Events l _ _ _ (message-One e env h (some l) id d m kvs st p g.0.0 g.0.1)
        (λ st'. writes-Events cs l st' p g.1)
  writes-Events (span_call par d n kvs ∷ cs) l st p g =
      after_write-Events l _ _ _ (newspan-One e env h (some l) par d n kvs st p g.0)
        (λ st'. writes-Events cs l st' p g.1)
  writes-Events (finish_call s kvs ∷ cs) l st p g =
      after_write-Events l _ _ _ (finish_span-One e env h (some l) s kvs st p g.0)
        (λ st'. writes-Events cs l st' p g.1)
  writes-Events (event_call id kvs ∷ cs) l st p g =
      after_write-Events l _ _ _ (event-One e env h (some l) id kvs st p g.0)
        (λ st'. writes-Events cs l st' p g.1)
  writes-Events (labels_call kvs ∷ cs) l st p g =
      let (l', set, p') = set_labels-PairBytes l kvs g.0 in
      let rest = writes-Events cs l' st p' g.1 in rw (set, after_labels) rest
  writes-Events (io_call s d p ∷ cs) l st q g =
      after_write-Events l _ _ _
        (message-One e env h (some l) s.id d (bytes_message p) [] st q g.0 tt)
        (λ st'. writes-Events cs l st' q g.1)
  writes-Events (dump_call s d msg name kvs p ∷ cs) l st q g =
      after_write-Events l _ _ _
        (message-One e env h (some l) s.id d (string_message msg) _ st q tt
          (append_kvs-PairBytes e.kvs h.kvs_encodes kvs g.0, (tt, tt)))
        (λ st'. writes-Events cs l st' q g.1)
  writes-Events (raw_call p ∷ cs) l st q g = add_event g.0 (writes-Events cs l st q g.1)
  writes-Events (time_call now nano ∷ cs) l st q g =
      writes-Events cs (set_time_now l now nano) st q g.1
  writes-Events (callers_call skip callers ∷ cs) l st q g =
      writes-Events cs (set_callers l skip callers) st q g.1

  -- A `Reader` of tlwire on what the calls wrote, cut into answers in any way, hands its writer the same slices
  -- again, one `Write` for each, and returns the number of their bytes and no error, under the conditions of
  -- the events, with a writer that takes every slice whole and less than 2 ^ 63 bytes.
  pub write_to-writes :
      (wr : Writer)
      → TakesAll wr
      → (cs : List Call) (l : Logger) (st : env.State) → PairBytes l.ls
      → All (IsCall e env) cs
      → (d : Reader) (w : wr.State) → d.i + length (joined (writes e env l cs st)) < 2 ^ 63
      → Streams d (joined (writes e env l cs st))
      → (d' : Reader) × (write_to rfc8949 wr d w
          ≡ ret (
            d',
            write_all wr w (writes e env l cs st),
            length (joined (writes e env l cs st)),
            none,
          ))
  write_to-writes wr takes cs l st p g d w small streams =
      let ev = writes-Events cs l st p g in
      let bytes : joined (writes e env l cs st) ≡ stream_of ev.items =
        ap joined ev.slices_are ∙ joined-encode ev.items in
      let (d', run) =
        write_to-stream rfc8949 wr refl takes ev.items d w ev.are_items (rw bytes at small)
          (rw bytes at streams) in
      let same : write_each wr w ev.items ≡ write_all wr w (writes e env l cs st) =
        write_all-encode wr ev.items w ∙ ap (write_all wr w) (sym ev.slices_are) in
      (d', run ∙ ap₂ (λ v n. ret (d', v, n, none)) same (ap length (sym bytes)))
