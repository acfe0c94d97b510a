-- ===== src/Flags/Writing/Balance.antt =====
-- ext/tlflag/flag.go: what `OpenWriter` opens, and what is closed again.
use tlog.Base.{ℕ, ◌≡◌, refl, sym, ap, ap₂, ◌∙◌, Bool-cases}
use tlog.Base.{none, some, List, [], ◌∷◌, ◌++◌, map, append_assoc, append-nil}
use tlog.Base.{◌⊎◌, inl, inr}
use tlog.Base.Bits.{Bytes}
use tlog.Verbosity.{split}
use tlog.Flags.Paths.{Url, UrlError, parse_url}
use tlog.Flags.Writing.{
  Sink, Handle, made, Event, opened, closed, World, Result, good, failed, Env, is_closer, openw,
  close_sink, close_sinks, next_round, round, open_loop, Output, output, returned, open_writer,
  close_output, Opened,
}
use tlog.Flags.Writing.Closing.{opening, handles, map-append, closing_if, Adds, Owned, openw-Owned}

-- The events of closing what was opened.
abbrev pub closing_events : List ℕ → List Event
closing_events ids = map closed (handles ids)

module _ (env : Env) where
  closings : List Sink → List Handle
  closings [] = []
  closings (w ∷ ws) = closing_if env w ++ closings ws

  closings-append :
      (ws : List Sink) (w : Sink) → closings (ws ++ (w ∷ [])) ≡ closings ws ++ closing_if env w
  unfolding closings
  closings-append [] w = append-nil (closing_if env w)
  closings-append (x ∷ ws) w =
      ap (λ t. closing_if env x ++ t) (closings-append ws w)
      ∙ sym (append_assoc (closing_if env x) (closings ws) (closing_if env w))

  close_sink-events :
      (wd : World) (w : Sink)
      → (close_sink env wd w).events ≡ wd.events ++ map closed (closing_if env w)
  unfolding close_sink closing_if
  close_sink-events wd w = elim (Bool-cases (is_closer env w)) [
    | inl y ↦ rw y refl
    | inr n ↦ rw n (sym (append-nil wd.events))
  ]

  close_sinks-events :
      (ws : List Sink) (wd : World)
      → (close_sinks env wd ws).events ≡ wd.events ++ map closed (closings ws)
  unfolding close_sinks closings
  close_sinks-events [] wd = sym (append-nil wd.events)
  close_sinks-events (w ∷ ws) wd =
      close_sinks-events ws (close_sink env wd w)
      ∙ ap (λ t. t ++ map closed (closings ws)) (close_sink-events wd w)
      ∙ append_assoc wd.events (map closed (closing_if env w)) (map closed (closings ws))
      ∙ ap (λ t. wd.events ++ t) (sym (map-append closed (closing_if env w) (closings ws)))

  -- From a first state on, the writers so far close what was opened so far.
  record Balanced (start wd : World) (ws : List Sink) : Type 0 where
    ids : List ℕ
    adds : Adds env start ids wd
    closes : closings ws ≡ handles ids

  LoopBalanced : World → Opened env → Type 0
  LoopBalanced start (wd, ws, e) = Balanced start wd ws

  Adds-Adds :
      (a b c : World) (xs ys : List ℕ) → Adds env a xs b → Adds env b ys c → Adds env a (xs ++ ys) c
  Adds-Adds a b c xs ys h g =
      g
      ∙ ap (λ t. t ++ opening ys) h
      ∙ append_assoc a.events (opening xs) (opening ys)
      ∙ ap (λ t. a.events ++ t) (sym (map-append opened xs ys))

  next_round-LoopBalanced :
      (start wd : World) (ws : List Sink) (r : World × Result Sink)
      (more : World → List Sink → Opened env)
      → Balanced start wd ws
      → Owned env wd r
      → ((wd' : World) (ws' : List Sink)
          → Balanced start wd' ws'
          → LoopBalanced start (more wd' ws'))
      → LoopBalanced start (next_round env ws r more)
  unfolding LoopBalanced next_round Owned
  next_round-LoopBalanced start wd ws (wd', failed e) more b o h = record {
    ids = b.ids;
    adds = o ∙ append-nil wd.events ∙ b.adds;
    closes = b.closes;
  }
  next_round-LoopBalanced start wd ws (wd', good w) more b (ids, adds, c) h =
      h wd' (ws ++ (w ∷ [])) (record {
        ids = b.ids ++ ids;
        adds = Adds-Adds start wd wd' b.ids ids b.adds adds;
        closes =
            closings-append ws w ∙ ap₂ (λ s t. s ++ t) b.closes c ∙ sym (map-append made b.ids ids);
      })

  round-LoopBalanced :
      (start wd : World) (ws : List Sink) (u : Url ⊎ UrlError)
      (more : World → List Sink → Opened env)
      → Balanced start wd ws
      → ((wd' : World) (ws' : List Sink)
          → Balanced start wd' ws'
          → LoopBalanced start (more wd' ws'))
      → LoopBalanced start (round env wd ws u more)
  unfolding LoopBalanced round
  round-LoopBalanced start wd ws (inr e) more b h = b
  round-LoopBalanced start wd ws (inl u) more b h =
      next_round-LoopBalanced start wd ws (openw env wd u) more b (openw-Owned env wd u) h

  open_loop-LoopBalanced :
      (start : World) (ds : List Bytes) (wd : World) (ws : List Sink)
      → Balanced start wd ws
      → LoopBalanced start (open_loop env wd ws ds)
  unfolding LoopBalanced open_loop
  open_loop-LoopBalanced start [] wd ws b = b
  open_loop-LoopBalanced start ([] ∷ ds) wd ws b = open_loop-LoopBalanced start ds wd ws b
  open_loop-LoopBalanced start ((x ∷ d) ∷ ds) wd ws b =
      round-LoopBalanced start wd ws (parse_url env.join env.url_parse (x ∷ d)) _ b
        (λ wd' ws' b'. open_loop-LoopBalanced start ds wd' ws' b')

  close_output-events :
      (wd : World) (ws : List Sink)
      → (close_output env wd (output env ws)).events ≡ wd.events ++ map closed (closings ws)
  unfolding close_output output
  close_output-events wd [] = close_sinks-events [] wd
  close_output-events wd (w ∷ []) = elim (Bool-cases (is_closer env w)) [
    | inl y ↦ rw y (
        unfold closings in
        close_sink-events wd w
        ∙ ap (λ t. wd.events ++ map closed t) (sym (append-nil (closing_if env w))))
    | inr n ↦ rw n (close_sinks-events (w ∷ []) wd)
  ]
  close_output-events wd (w ∷ x ∷ ws) = close_sinks-events (w ∷ x ∷ ws) wd

  -- After an error all that was opened is closed, and after a success all that was opened is closed by the
  -- `Close` of the result: one closing for each opening, in the same order, and no other event.
  unfoldable pub Settled : World → World × Result (Output env) → Type 0
  Settled start (wd, failed e) =
      (ids : List ℕ) × (wd.events ≡ start.events ++ (opening ids ++ closing_events ids))
  Settled start (wd, good out) =
      (ids : List ℕ) × (wd.events ≡ start.events ++ opening ids)
      × ((close_output env wd out).events ≡ start.events ++ (opening ids ++ closing_events ids))

  closed_after :
      (start wd end : World) (ws : List Sink) (b : Balanced start wd ws)
      → end.events ≡ wd.events ++ map closed (closings ws)
      → end.events ≡ start.events ++ (opening b.ids ++ closing_events b.ids)
  closed_after start wd end ws b h =
      h
      ∙ ap₂ (λ s t. s ++ map closed t) b.adds b.closes
      ∙ append_assoc start.events (opening b.ids) (closing_events b.ids)

  returned-Settled :
      (start : World) (o : Opened env) → LoopBalanced start o → Settled start (returned env o)
  unfolding LoopBalanced Settled returned
  returned-Settled start (wd, ws, some e) b =
      (b.ids, closed_after start wd (close_sinks env wd ws) ws b (close_sinks-events ws wd))
  returned-Settled start (wd, ws, none) b = (
    b.ids,
    b.adds,
    closed_after start wd (close_output env wd (output env ws)) ws b (close_output-events wd ws),
  )

  -- `OpenWriter` on any list of addresses: where it fails, it has closed again all that it opened, and where
  -- it does not, the `Close` of what it returns closes all that it opened. There is one closing for each
  -- opening, in the same order, and no other: stdout and stderr stay open.
  pub open_writer-Settled :
      (start : World) (dst : Bytes) → Settled start (open_writer env start dst)
  unfolding open_writer closings
  open_writer-Settled start dst = returned-Settled start (open_loop env start [] (split b',' dst)) (
      open_loop-LoopBalanced start (split b',' dst) start []
        (record { ids = []; adds = sym (append-nil start.events); closes = refl }))
