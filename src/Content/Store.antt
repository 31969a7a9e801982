-- ===== src/Content/Store.antt =====
-- src/stream_content.rs: the bounded store of the streams' content (`StreamContent`). The map's
-- iteration order is that of the list of entries, new entries in front.
pub mod Limit
pub mod Room
pub mod Kept
use rustmate.Base.{
  ℕ, suc, ◌+◌, ◌-◌, ◌*◌, ◌%◌, Bool, true, false, not, ◌&&◌, Option, none, some, List, [], ◌∷◌, map,
  ltb, leb, ◌==◌, if◌then◌else◌, min, u64_max, saturating_add, length, is_empty, sum_map, get,
  set_value, remove_key, retain, min_by_key, loop, ◌>>=◌,
}
use rustmate.Packet.Decoded.{PacketTimestamp, DecodedPacket, TransportPayload, transport_payload}
use rustmate.Flow.Direction.{TcpObservation}
use rustmate.Flow.Route.{FlowKey, stable_id}
use rustmate.Flow.Table.{FlowKey-discrete, FlowObservation}
use rustmate.Content.Config.{StreamContentConfig, normalized}
use rustmate.Content.Direction.{StreamContentRange}
use rustmate.Content.Record.{
  ContentRecord, RecordUpdate, stored_bytes, observe_chunks, observe_payload,
}
use rustmate.Content.Record

pub record StreamContentStats : Type 0 where
  pub active_content_streams : ℕ
  pub active_content_segments : ℕ
  pub stored_content_bytes : ℕ
  pub observed_content_bytes : ℕ
  pub dropped_content_bytes : ℕ
  pub evicted_content_streams : ℕ
  pub truncated_content_streams : ℕ
  pub content_updates : ℕ
  pub merged_content_segments : ℕ

pub record StreamContentUpdate : Type 0 where
  pub stream_id : ℕ
  pub key : FlowKey
  pub ranges : List StreamContentRange
  pub observed_bytes : ℕ
  pub stored_bytes_after : ℕ

abbrev pub Streams : Type 0
Streams = List (FlowKey × ContentRecord)

pub record StreamContent : Type 0 where
  pub config : StreamContentConfig
  pub streams : Streams
  pub observed_packets : ℕ
  pub stored_bytes : ℕ
  pub stats : StreamContentStats

unfoldable pub new : StreamContentConfig → StreamContent
unfolding normalized
new config = record {
  config = normalized config;
  streams = [];
  observed_packets = 0;
  stored_bytes = 0;
  stats = record {
    active_content_streams = 0;
    active_content_segments = 0;
    stored_content_bytes = 0;
    observed_content_bytes = 0;
    dropped_content_bytes = 0;
    evicted_content_streams = 0;
    truncated_content_streams = 0;
    content_updates = 0;
    merged_content_segments = 0;
  };
}

unfoldable pub remove_stream : FlowKey → StreamContent → StreamContent
unfolding get remove_key stored_bytes
remove_stream key c = elim (get FlowKey-discrete key c.streams) [
  | none ↦ c
  | some r ↦ record c {
    streams = remove_key FlowKey-discrete key c.streams;
    stored_bytes = c.stored_bytes - stored_bytes r;
    stats = record c.stats {
      dropped_content_bytes = saturating_add c.stats.dropped_content_bytes (stored_bytes r);
      evicted_content_streams = saturating_add c.stats.evicted_content_streams 1;
    };
  }
]

unfoldable pub remove_streams : List FlowKey → StreamContent → StreamContent
unfolding remove_stream
remove_streams [] c = c
remove_streams (key ∷ keys) c = remove_streams keys (remove_stream key c)

unfoldable pub expired : ℕ → StreamContent → List FlowKey
unfolding retain
expired now_us c =
    let timeout_us = min (c.config.idle_timeout_ms * 1000) u64_max in
    map (λ (e : FlowKey × ContentRecord). e.0)
      (retain (λ key (r : ContentRecord). ltb timeout_us (now_us - r.last_seen_us)) c.streams)

unfoldable pub evict_idle : ℕ → StreamContent → StreamContent
unfolding expired remove_streams
evict_idle now_us c = remove_streams (expired now_us c) c

unfoldable pub is_key : FlowKey → FlowKey → Bool
unfolding FlowKey-discrete
is_key key other = elim (FlowKey-discrete key other) [ yes _ ↦ true | no _ ↦ false ]

-- The streams but the one with the key `except`.
unfoldable pub candidates : Option FlowKey → Streams → Streams
unfolding is_key retain
candidates none streams = streams
candidates (some except) streams = retain (λ key _. not (is_key key except)) streams

-- `none` where it returns false.
unfoldable pub evict_oldest : Option FlowKey → StreamContent → Option StreamContent
unfolding candidates min_by_key remove_stream
evict_oldest except c =
    elim (min_by_key (λ (r : ContentRecord). r.last_seen_us) (candidates except c.streams)) [
      | none ↦ none
      | some (key, r) ↦ some (remove_stream key c)
    ]

unfoldable pub limit_step : FlowKey → StreamContent → Option StreamContent
unfolding evict_oldest
limit_step current_key c =
    if ltb c.config.max_total_bytes c.stored_bytes
    then evict_oldest (if ltb 1 (length c.streams) then some current_key else none) c
    else none

-- Each round removes a stream.
unfoldable pub enforce_global_limit : FlowKey → StreamContent → StreamContent
unfolding limit_step loop
enforce_global_limit current_key c = loop (limit_step current_key) (suc (length c.streams)) c

unfoldable pub should_evict : StreamContent → Bool
should_evict c = not (c.observed_packets == 0) && (c.observed_packets % 16384 == 0)

-- Room for one more stream, if the store is full.
unfoldable pub make_room : ℕ → StreamContent → StreamContent
unfolding evict_idle evict_oldest
make_room now_us c =
    let fresh = evict_idle now_us c in
    if leb c.config.max_streams (length c.streams)
    then (if leb fresh.config.max_streams (length fresh.streams)
        then elim (evict_oldest none fresh) [ none ↦ fresh | some after ↦ after ]
        else fresh)
    else c

unfoldable pub insert_stream : FlowKey → ℕ → StreamContent → Option StreamContent
unfolding Record.new
insert_stream key now_us c =
    if leb c.config.max_streams (length c.streams)
    then none
    else some (record c { streams = (key, Record.new key now_us) ∷ c.streams })

-- The store in any case, and whether the stream is there.
unfoldable pub ensure_stream : FlowKey → ℕ → StreamContent → StreamContent × Bool
unfolding get make_room insert_stream
ensure_stream key now_us c = elim (get FlowKey-discrete key c.streams) [
  | some r ↦ (c, true)
  | none ↦
      let roomy = make_room now_us c in
      elim (insert_stream key now_us roomy) [ none ↦ (roomy, false) | some after ↦ (after, true) ]
]

unfoldable pub timestamp_us : PacketTimestamp → ℕ
timestamp_us timestamp = saturating_add (min (timestamp.sec * 1000000) u64_max) timestamp.usec

unfoldable pub flow_has_content : DecodedPacket → FlowObservation → Bool
unfolding transport_payload
flow_has_content packet flow = elim flow.tcp [
  | some tcp ↦ not (is_empty tcp.stream_chunks)
  | none ↦ elim (transport_payload packet) [
    | none ↦ false
    | some transport ↦ not (is_empty transport.bytes)
  ]
]

unfoldable pub observe_record :
    StreamContentConfig
    → DecodedPacket
    → FlowObservation
    → ℕ
    → ContentRecord
    → ContentRecord × Option RecordUpdate
unfolding observe_chunks observe_payload transport_payload
observe_record config packet flow now_us r =
    let seen : ContentRecord = record r { last_seen_us = now_us } in
    elim flow.tcp [
      | some tcp ↦
          let (after, update) =
            observe_chunks tcp.stream_chunks now_us config.max_segment_bytes
              config.max_bytes_per_stream seen in
          (after, some update)
      | none ↦ elim (transport_payload packet) [
        | none ↦ (seen, none)
        | some transport ↦
            let (after, update) =
              observe_payload flow.direction transport.bytes none now_us config.max_segment_bytes
                config.max_bytes_per_stream seen in
            (after, some update)
      ]
    ]

-- The counters after an update of a stream.
unfoldable pub count_update : RecordUpdate → StreamContent → StreamContent
count_update update c = record c {
  stored_bytes = saturating_add c.stored_bytes update.appended.stored_bytes - update.trimmed_bytes;
  stats = record c.stats {
    observed_content_bytes =
        saturating_add c.stats.observed_content_bytes update.appended.observed_bytes;
    dropped_content_bytes = saturating_add c.stats.dropped_content_bytes update.trimmed_bytes;
    content_updates = saturating_add c.stats.content_updates 1;
    merged_content_segments =
        saturating_add c.stats.merged_content_segments update.appended.merged_segments;
    truncated_content_streams =
        if update.newly_truncated
        then saturating_add c.stats.truncated_content_streams 1
        else c.stats.truncated_content_streams;
  };
}

-- The store, counted and within its limit, and what is reported of the update.
unfoldable pub report :
    FlowObservation → RecordUpdate → StreamContent → StreamContent × Option StreamContentUpdate
unfolding count_update enforce_global_limit get
report flow update c =
    let limited = enforce_global_limit flow.key (count_update update c) in
    if is_empty update.ranges then (c, none) else (
      limited,
      some (record {
        stream_id = stable_id flow.key;
        key = flow.key;
        ranges = update.ranges;
        observed_bytes = update.appended.observed_bytes;
        stored_bytes_after = elim (get FlowKey-discrete flow.key limited.streams) [
          | none ↦ 0
          | some r ↦ stored_bytes r
        ];
      }),
    )

-- The part of `observe_flow` behind `ensure_stream`.
unfoldable pub observe_stream :
    DecodedPacket → FlowObservation → ℕ → StreamContent → StreamContent × Option StreamContentUpdate
unfolding get set_value observe_record report
observe_stream packet flow now_us c = elim (get FlowKey-discrete flow.key c.streams) [
  | none ↦ (c, none)
  | some r ↦
      let (after, updated) = observe_record c.config packet flow now_us r in
      let c' : StreamContent = record c {
        streams = set_value FlowKey-discrete flow.key after c.streams;
      } in
      elim updated [ none ↦ (c', none) | some update ↦ report flow update c' ]
]

unfoldable pub observe_flow :
    DecodedPacket → FlowObservation → StreamContent → StreamContent × Option StreamContentUpdate
unfolding flow_has_content timestamp_us should_evict evict_idle ensure_stream observe_stream
observe_flow packet flow c =
    let now_us = timestamp_us packet.timestamp in
    let counted : StreamContent = record c {
      observed_packets = saturating_add c.observed_packets 1;
    } in
    let fresh = if should_evict counted then evict_idle now_us counted else counted in
    let (ready, present) = ensure_stream flow.key now_us fresh in
    if not c.config.enabled
    then (c, none)
    else if not (flow_has_content packet flow)
    then (c, none)
    else if present
    then observe_stream packet flow now_us ready
    else (ready, none)

unfoldable pub stats : StreamContent → StreamContentStats
unfolding Record.segment_count
stats c = record c.stats {
  active_content_streams = length c.streams;
  active_content_segments =
      sum_map (λ (e : FlowKey × ContentRecord). Record.segment_count e.1) c.streams;
  stored_content_bytes = c.stored_bytes;
}
