-- ===== src/Content/Store/Kept.antt =====
-- Which streams stay when one more is to be stored.
use rustmate.Base.{
  ℕ, ◌-◌, ◌*◌, ◌≤◌, ◌<◌, ◌≡◌, refl, sym, ap, subst, ◌∙◌, inl, inr, Bool, not, none, some, List, [],
  ◌∷◌, arith, if_both, leb, ltb, Option-cases, All, min, u64_max, length, get, remove_key, retain,
  min_by_key, Distinct, min_by_key-le, min_by_key-none, min_by_key-get, Distinct-retain,
  remove_key-absent, remove_keys, remove_keys-retain,
}
use rustmate.Flow.Route.{FlowKey}
use rustmate.Flow.Table.{FlowKey-discrete}
use rustmate.Content.Record.{ContentRecord}
use rustmate.Content.Record
use rustmate.Content.Store.{
  Streams, StreamContent, remove_stream, remove_streams, expired, candidates, evict_idle,
  evict_oldest, make_room,
}

-- The streams of the store that have been seen within the idle timeout.
unfoldable pub active : ℕ → StreamContent → Streams
unfolding retain
active now_us c =
    retain
      (λ key (r : ContentRecord).
        leb (now_us - r.last_seen_us) (min (c.config.idle_timeout_ms * 1000) u64_max))
      c.streams

-- What may stay to make room: all streams if the store is not full; else the active ones, if one of the
-- streams is idle; else all but one that none was last seen before.
pub data Kept (now_us : ℕ) (c : StreamContent) : Streams → Type 0 where
  all_stay : length c.streams < c.config.max_streams → Kept now_us c c.streams
  idle_go :
      c.config.max_streams ≤ length c.streams
      → length (active now_us c) < c.config.max_streams
      → Kept now_us c (active now_us c)
  oldest_goes :
      (key : FlowKey) (r : ContentRecord)
      → c.config.max_streams ≤ length (active now_us c)
      → get FlowKey-discrete key (active now_us c) ≡ some r
      → All (λ (e : FlowKey × ContentRecord). r.last_seen_us ≤ e.1.last_seen_us) (active now_us c)
      → Kept now_us c (remove_key FlowKey-discrete key (active now_us c))

-- The streams after `ensure_stream`: those before, if the stream was there, else the new one and those
-- that stay.
pub data Ensured (key : FlowKey) (now_us : ℕ) (c : StreamContent) : Streams → Type 0 where
  known :
      (r : ContentRecord)
      → get FlowKey-discrete key c.streams ≡ some r
      → Ensured key now_us c c.streams
  added :
      (kept : Streams)
      → get FlowKey-discrete key c.streams ≡ none
      → Kept now_us c kept
      → Ensured key now_us c ((key, Record.new key now_us) ∷ kept)

streams-remove_stream :
    (key : FlowKey) (c : StreamContent)
    → (remove_stream key c).streams ≡ remove_key FlowKey-discrete key c.streams
unfolding remove_stream
streams-remove_stream key c = elim (Option-cases (get FlowKey-discrete key c.streams)) [
  | inl n ↦ rw (n, remove_stream) (sym (remove_key-absent FlowKey-discrete key c.streams n))
  | inr (r, e) ↦ rw (e, remove_stream) refl
]

streams-remove_streams :
    (keys : List FlowKey) (c : StreamContent)
    → (remove_streams keys c).streams ≡ remove_keys FlowKey-discrete keys c.streams
unfolding remove_streams remove_keys
streams-remove_streams [] c = refl
streams-remove_streams (key ∷ keys) c =
    streams-remove_streams keys (remove_stream key c)
    ∙ ap (remove_keys FlowKey-discrete keys) (streams-remove_stream key c)

retain-ext :
    (p q : FlowKey → ContentRecord → Bool) (streams : Streams)
    → ((key : FlowKey) (r : ContentRecord) → p key r ≡ q key r)
    → retain p streams ≡ retain q streams
unfolding retain
retain-ext p q [] h = refl
retain-ext p q ((key, r) ∷ streams) h = ground (arith, h key r, retain-ext p q streams h)

streams-evict_idle :
    (now_us : ℕ) (c : StreamContent)
    → Distinct FlowKey-discrete c.streams
    → (evict_idle now_us c).streams ≡ active now_us c
unfolding evict_idle expired active
streams-evict_idle now_us c d =
    streams-remove_streams (expired now_us c) c
    ∙ remove_keys-retain FlowKey-discrete idle c.streams d
    ∙ retain-ext (λ key r. not (idle key r)) _ c.streams (λ key r. ground arith)
  where
    idle : FlowKey → ContentRecord → Bool
    idle key r = ltb (min (c.config.idle_timeout_ms * 1000) u64_max) (now_us - r.last_seen_us)

abbrev KeptIn : ℕ → StreamContent → StreamContent → Type 0
KeptIn now_us c after = Kept now_us c after.streams

Distinct-active :
    (now_us : ℕ) (c : StreamContent)
    → Distinct FlowKey-discrete c.streams
    → Distinct FlowKey-discrete (active now_us c)
unfolding active
Distinct-active now_us c d = Distinct-retain FlowKey-discrete _ c.streams d

-- The eviction of the oldest stream from a store whose active streams are these.
evict_oldest-Kept :
    (now_us : ℕ) (c fresh : StreamContent)
    → fresh.streams ≡ active now_us c
    → Distinct FlowKey-discrete (active now_us c)
    → 0 < c.config.max_streams
    → c.config.max_streams ≤ length (active now_us c)
    → KeptIn now_us c (elim (evict_oldest none fresh) [ none ↦ fresh | some after ↦ after ])
unfolding candidates evict_oldest
evict_oldest-Kept now_us c fresh same d positive full =
    elim (Option-cases (min_by_key (λ (r : ContentRecord). r.last_seen_us) fresh.streams)) [
      | inl n ↦
          let nothing : length fresh.streams ≡ 0 = ap length (
            min_by_key-none FlowKey-discrete (λ (r : ContentRecord). r.last_seen_us) fresh.streams
              n) in
          absurd (omega (arith, nothing, ap length same))
      | inr ((key, r), e) ↦
          let least : min_by_key (λ (r : ContentRecord). r.last_seen_us) (active now_us c)
              ≡ some (key, r) =
            ap (min_by_key (λ (r : ContentRecord). r.last_seen_us)) (sym same) ∙ e in
          rw e (
            subst (Kept now_us c)
              (ap (remove_key FlowKey-discrete key) (sym same)
                ∙ sym (streams-remove_stream key fresh))
              (oldest_goes key r full
                (min_by_key-get FlowKey-discrete (λ (r : ContentRecord). r.last_seen_us)
                  (active now_us c) key r d least)
                (min_by_key-le FlowKey-discrete (λ (r : ContentRecord). r.last_seen_us)
                  (active now_us c) key r least)))
    ]

pub make_room-Kept :
    (now_us : ℕ) (c : StreamContent)
    → Distinct FlowKey-discrete c.streams
    → 0 < c.config.max_streams
    → (evict_idle now_us c).config ≡ c.config
    → Kept now_us c (make_room now_us c).streams
unfolding make_room
make_room-Kept now_us c d positive config =
    if_both (KeptIn now_us c) (leb c.config.max_streams (length c.streams))
      (λ full.
        if_both (KeptIn now_us c) (leb fresh.config.max_streams (length fresh.streams))
          (λ still.
            evict_oldest-Kept now_us c fresh same (Distinct-active now_us c d) positive
              (ground (arith, still, limit, size)))
          (λ room.
            subst (Kept now_us c) (sym same)
              (idle_go (ground (arith, full)) (ground (arith, room, limit, size)))))
      (λ room. all_stay (ground (arith, room)))
  where
    fresh : StreamContent
    fresh = evict_idle now_us c

    same : fresh.streams ≡ active now_us c
    same = streams-evict_idle now_us c d

    limit : fresh.config.max_streams ≡ c.config.max_streams
    limit = ap (λ k. k.max_streams) config

    size : length fresh.streams ≡ length (active now_us c)
    size = ap length same
