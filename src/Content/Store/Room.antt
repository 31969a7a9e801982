-- ===== src/Content/Store/Room.antt =====
-- Room for a stream in the store.
use rustmate.Base.{
  ℕ, ◌≤◌, ◌<◌, ◌≡◌, refl, ap, ◌∙◌, inl, inr, true, false, none, some, List, [], ◌∷◌, arith, if_both,
  Option-cases, length, leb, get, get-front,
}
use rustmate.Flow.Route.{FlowKey}
use rustmate.Flow.Table.{FlowKey-discrete}
use rustmate.Content.Record.{ContentRecord, stored_bytes}
use rustmate.Content.Record
use rustmate.Content.Store.{
  StreamContent, remove_stream, remove_streams, candidates, expired, evict_idle, evict_oldest,
  make_room, insert_stream, ensure_stream,
}
use rustmate.Content.Store.Limit.{
  Balanced, remove_stream-Removed, evict_oldest-Removed, evict_oldest-none,
}
use rustmate.Content.Store.Kept.{Ensured, known, added, make_room-Kept}

-- The store is within its limit of streams, which is at least one, and its count of bytes is exact.
pub record IsValid (c : StreamContent) : Type 0 where
  pub balanced : Balanced c
  pub positive : 0 < c.config.max_streams
  pub bounded : length c.streams ≤ c.config.max_streams

-- What evictions do to the store.
record Shrinks (c c' : StreamContent) : Type 0 where
  balanced : Balanced c'
  config : c'.config ≡ c.config
  fewer : length c'.streams ≤ length c.streams
  absent :
      (i : FlowKey)
      → get FlowKey-discrete i c.streams ≡ none
      → get FlowKey-discrete i c'.streams ≡ none

remove_stream-Shrinks :
    (key : FlowKey) (c : StreamContent) → Balanced c → Shrinks c (remove_stream key c)
unfolding remove_stream
remove_stream-Shrinks key c b = elim (Option-cases (get FlowKey-discrete key c.streams)) [
  | inl n ↦
      rw (n, remove_stream)
        (record { balanced = b; config = refl; fewer = omega arith; absent = λ i n. n })
  | inr (r, e) ↦
      let x = remove_stream-Removed key r c e b in
      record {
        balanced = x.balanced;
        config = x.config;
        fewer = omega (arith, x.fewer);
        absent = x.absent;
      }
]

remove_streams-Shrinks :
    (keys : List FlowKey) (c : StreamContent) → Balanced c → Shrinks c (remove_streams keys c)
unfolding remove_streams
remove_streams-Shrinks [] c b = record {
  balanced = b;
  config = refl;
  fewer = omega arith;
  absent = λ i n. n;
}
remove_streams-Shrinks (key ∷ keys) c b =
    let x = remove_stream-Shrinks key c b in
    let y = remove_streams-Shrinks keys (remove_stream key c) x.balanced in
    record {
      balanced = y.balanced;
      config = y.config ∙ x.config;
      fewer = omega (arith, x.fewer, y.fewer);
      absent = λ i n. y.absent i (x.absent i n);
    }

evict_idle-Shrinks : (now_us : ℕ) (c : StreamContent) → Balanced c → Shrinks c (evict_idle now_us c)
unfolding evict_idle
evict_idle-Shrinks now_us c b = remove_streams-Shrinks (expired now_us c) c b

-- After `make_room` there is room for one more stream.
record Roomy (c c' : StreamContent) : Type 0 where
  balanced : Balanced c'
  config : c'.config ≡ c.config
  room : length c'.streams < c'.config.max_streams
  absent :
      (i : FlowKey)
      → get FlowKey-discrete i c.streams ≡ none
      → get FlowKey-discrete i c'.streams ≡ none

-- An eviction from a store with at most as many streams as it may have.
evict_oldest-Roomy :
    (c : StreamContent)
    → Balanced c
    → 0 < c.config.max_streams
    → length c.streams ≤ c.config.max_streams
    → Roomy c (elim (evict_oldest none c) [ none ↦ c | some after ↦ after ])
unfolding candidates
evict_oldest-Roomy c b p l = elim (Option-cases (evict_oldest none c)) [
  | inl n ↦
      let nothing : length c.streams ≡ 0 = ap length (evict_oldest-none none c n) in
      rw n
        (record { balanced = b; config = refl; room = omega (arith, nothing); absent = λ i n. n })
  | inr (after, e) ↦
      let x = evict_oldest-Removed none c after e b in
      rw e (record {
        balanced = x.balanced;
        config = x.config;
        room = omega (arith, x.fewer, ap (λ k. k.max_streams) x.config);
        absent = x.absent;
      })
]

make_room-Roomy : (now_us : ℕ) (c : StreamContent) → IsValid c → Roomy c (make_room now_us c)
unfolding make_room
make_room-Roomy now_us c v =
    if_both (Roomy c) (leb c.config.max_streams (length c.streams))
      (λ _.
        if_both (Roomy c) (leb fresh.config.max_streams (length fresh.streams))
          (λ _.
            let x =
              evict_oldest-Roomy fresh s.balanced (omega (arith, limit, v.positive))
                (omega (arith, s.fewer, limit, v.bounded)) in
            record {
              balanced = x.balanced;
              config = x.config ∙ s.config;
              room = x.room;
              absent = λ i n. x.absent i (s.absent i n);
            })
          (λ h. record {
            balanced = s.balanced;
            config = s.config;
            room = ground arith;
            absent = s.absent;
          }))
      (λ h. record { balanced = v.balanced; config = refl; room = ground arith; absent = λ i n. n })
  where
    fresh : StreamContent
    fresh = evict_idle now_us c

    s : Shrinks c fresh
    s = evict_idle-Shrinks now_us c v.balanced

    limit : fresh.config.max_streams ≡ c.config.max_streams
    limit = ap (λ k. k.max_streams) s.config

-- In a valid store a stream can always be had: it is there after `ensure_stream`, new or not, and
-- the store is still valid. If it was there, the streams are those before. If not, it is put before
-- the streams that stay: all of them if the store was not full; if it was, those seen within the idle
-- timeout, and if these are still as many as allowed, all of them but one that none was last seen
-- before.
pub ensure_stream-IsValid :
    (key : FlowKey) (now_us : ℕ) (c : StreamContent)
    → IsValid c
    → let (after, present) = ensure_stream key now_us c in
      IsValid after
      × (present ≡ true)
      × ((r : ContentRecord) × (get FlowKey-discrete key after.streams ≡ some r))
      × Ensured key now_us c after.streams
unfolding ensure_stream insert_stream Record.new stored_bytes
ensure_stream-IsValid key now_us c v = elim (Option-cases (get FlowKey-discrete key c.streams)) [
  | inr (r, e) ↦ rw (e, ensure_stream) (v, refl, (r, e), known r e)
  | inl n ↦
      rw (n, full, ensure_stream, insert_stream)
        (
          record {
            balanced = record {
              distinct = (x.absent key n, x.balanced.distinct);
              counted = omega (arith, x.balanced.counted);
            };
            positive = omega (arith, x.room);
            bounded = omega (arith, x.room);
          },
          refl,
          (
            Record.new key now_us,
            get-front FlowKey-discrete key (Record.new key now_us) roomy.streams,
          ),
          added roomy.streams n (
              make_room-Kept now_us c v.balanced.distinct v.positive
                (evict_idle-Shrinks now_us c v.balanced).config),
        )
]
  where
    roomy : StreamContent
    roomy = make_room now_us c

    x : Roomy c roomy
    x = make_room-Roomy now_us c v

    full : leb roomy.config.max_streams (length roomy.streams) ≡ false
    full = ground (arith, x.room)
