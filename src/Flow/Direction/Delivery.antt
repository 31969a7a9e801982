-- ===== src/Flow/Direction/Delivery.antt =====
-- A whole conversation in one direction: what the chunks of all its segments are together.
use rustmate.Base.{
  ℕ, ◌+◌, ◌-◌, ◌≤◌, ◌≡◌, refl, sym, ap, ◌∙◌, false, List, [], ◌∷◌, ◌++◌, arith, length, take, drop,
  subst, append_assoc, append-nil, take_of_length-le, All,
}
use rustmate.Packet.Segment.{TcpSegment}
use rustmate.Flow.Chunk.{FlowDirection, payload_of}
use rustmate.Flow.Config.{FlowTableConfig}
use rustmate.Flow.Stats.{FlowTableStats}
use rustmate.Flow.Stream.{Fits, Slice, Sent}
use rustmate.Flow.Buffer.{TcpDirectionState, default}
use rustmate.Flow.Direction.{Observed, observe}
use rustmate.Flow.Direction.Branches.{Started}
use rustmate.Flow.Direction.Reassembly.{
  Tracks, idle, reach, observe-Tracks, observe-Started, observe-first,
}

-- A segment more it reaches the direction, with the bytes that its connection has buffered in both
-- directions and the counters of the table at that time.
pub record Arrival : Type 0 where
  pub segment : TcpSegment
  pub payload : List ℕ
  pub flow_buffered_bytes : ℕ
  pub stats : FlowTableStats

module _ (d : FlowDirection) (config : FlowTableConfig) where
  abbrev pub observe_arrival : Arrival → TcpDirectionState → Observed
  observe_arrival a state = observe d a.segment a.payload config a.flow_buffered_bytes a.stats state

  -- The arrivals one after another: what is emitted, and the state that is left.
  unfoldable pub deliver : List Arrival → TcpDirectionState → List ℕ × TcpDirectionState
  deliver [] state = ([], state)
  deliver (a ∷ more) state =
      let o = observe_arrival a state in
      let (out, after) = deliver more o.state in
      (payload_of o.observation.stream_chunks ++ out, after)

module _ (isn : ℕ) (stream : List ℕ) where
  abbrev pub SentAll : List Arrival → Type 0
  SentAll = All λ a. Sent isn stream a.segment a.payload

  -- How far the arrivals bring the stream, those that leave a gap not counted.
  abbrev pub reaches : (more : List Arrival) → SentAll more → ℕ → ℕ
  reaches [] sent r = r
  reaches (a ∷ more) sent r = reaches more sent.1 (reach a.segment a.payload sent.0 r)

  module _ (fits : Fits stream) (d : FlowDirection) (config : FlowTableConfig) where
    deliver-Tracks :
        (more : List Arrival) (out : List ℕ) (state : TcpDirectionState)
        → SentAll more
        → Tracks isn stream out state
        → let r = deliver d config more state in Tracks isn stream (out ++ r.0) r.1
    unfolding deliver
    deliver-Tracks [] out state sent t =
        subst (λ o. Tracks isn stream o state) (sym (append-nil out)) t
    deliver-Tracks (a ∷ more) out state sent t =
        subst (λ o. Tracks isn stream o (deliver d config more after.state).1)
          (append_assoc out (payload_of after.observation.stream_chunks)
            (deliver d config more after.state).0)
          (deliver-Tracks more (out ++ payload_of after.observation.stream_chunks) after.state
            sent.1
            (observe-Tracks isn stream fits d config out a.flow_buffered_bytes a.stats a.segment
              a.payload state sent.0 t))
      where
        after : Observed
        after = observe_arrival d config a state

    deliver-Started :
        (more : List Arrival) (out : List ℕ) (state : TcpDirectionState) (sent : SentAll more)
        {b r : ℕ}
        → Started isn stream b r out state
        → let q = deliver d config more state in
          Started isn stream b (reaches more sent r) (out ++ q.0) q.1
    unfolding deliver
    deliver-Started [] out state sent {b} {r} t =
        subst (λ o. Started isn stream b r o state) (sym (append-nil out)) t
    deliver-Started (a ∷ more) out state sent {b} {r} t =
        subst
          (λ o.
            Started isn stream b (reaches (a ∷ more) sent r) o
              (deliver d config more after.state).1)
          (append_assoc out (payload_of after.observation.stream_chunks)
            (deliver d config more after.state).0)
          (deliver-Started more (out ++ payload_of after.observation.stream_chunks) after.state
            sent.1
            (observe-Started isn stream fits d config out a.flow_buffered_bytes a.stats a.segment
              a.payload state sent.0 t))
      where
        after : Observed
        after = observe_arrival d config a state

    -- Any arrivals that one sender could have caused with a stream of fewer than 2^31 positions,
    -- in any order, with any loss, repetition or overlap, and with any limits on the buffer: what
    -- the direction emits is a piece of the stream with no byte missing, repeated or changed, from
    -- where the direction began to its `next_seq`; it is nothing as long as no segment with
    -- sequence space has come.
    pub deliver_sound :
        (arrivals : List Arrival)
        → SentAll arrivals
        → let (out, state) = deliver d config arrivals default in Tracks isn stream out state
    deliver_sound arrivals sent = deliver-Tracks arrivals [] default sent (idle refl refl refl)

    -- For a stream of fewer than 2^31 positions: if the first arrival is the slice that starts
    -- with the SYN and not a reset, and the arrivals that start no later than the ones before them
    -- reach, whatever comes between them, cover the stream, then the whole stream is emitted. An
    -- early arrival is not counted, since the buffer may have no room for it.
    pub deliver_complete :
        (a : Arrival) (more : List Arrival) (s : Slice isn stream a.segment a.payload)
        (sent : SentAll more)
        → s.first ≡ 0
        → a.segment.flags.rst ≡ false
        → length stream + 1 ≤ reaches more sent s.last
        → (deliver d config (a ∷ more) default).0 ≡ stream
    unfolding deliver
    deliver_complete a more s sent zero live whole =
        all.all
        ∙ ap (λ b. drop (b - 1) (take (all.position - 1) stream)) zero
        ∙ take_of_length-le (all.position - 1) stream (omega (arith, all.passed))
      where
        after : Observed
        after = observe_arrival d config a default

        all :
            Started isn stream s.first
              (reaches more sent s.last)
              (payload_of after.observation.stream_chunks ++ (deliver d config more after.state).0)
              (deliver d config more after.state).1
        all = deliver-Started more (payload_of after.observation.stream_chunks) after.state sent (
            observe-first isn stream fits d config [] a.flow_buffered_bytes a.stats a.segment
              a.payload default s live refl refl refl)
