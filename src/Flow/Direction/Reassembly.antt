-- ===== src/Flow/Direction/Reassembly.antt =====
-- One segment against the stream: whatever part of one stream arrives, what `observe` emits is the
-- stream, from where the direction stands.
use rustmate.Base.{
  ℕ, ◌≤◌, ◌≡◌, refl, sym, ap, ◌∙◌, inl, inr, true, false, Option, none, some, List, [], ◌++◌, arith,
  ltb, leb, ltb→lt, ◌==◌, if◌then◌else◌, Bool-cases, if_both, subst, append-nil, ◌⊎◌, ==_iff, max,
  wrapping_add,
}
use rustmate.Packet.Segment.{TcpSegment, sequence_span}
use rustmate.Flow.Seq.{seq_eq, seq_before, seq_after}
use rustmate.Flow.Seq.Window.{at, seq_before-at, seq_after-at, seq_eq-at}
use rustmate.Flow.Chunk.{FlowDirection, payload_of}
use rustmate.Flow.Config.{FlowTableConfig}
use rustmate.Flow.Stats.{FlowTableStats}
use rustmate.Flow.Payload.Cut.{sequence_span-Slice}
use rustmate.Flow.Stream.{between, Fits, Slice, Sent, reset, empty, slice}
use rustmate.Flow.Buffer.{TcpDirectionState, buffer_out_of_order}
use rustmate.Flow.Buffer.Follow.{At}
use rustmate.Flow.Direction.Branches.{
  Started, StartedAfter, quiet, same_place, init-Started, in_order-Started, overlap-Started,
  retransmission-Started, buffer-At, buffered-Started,
}
use rustmate.Flow.Direction.{
  TcpSequenceStatus, Observed, observation, count_segment, raise_highest, observe_at, observe_span,
  observe,
}

-- Either no segment with sequence space has come, or the direction began at some position.
pub data Tracks (isn : ℕ) (stream : List ℕ) (out : List ℕ) (state : TcpDirectionState)
    : Type 0 where
  idle : state.next_seq ≡ none → state.buffered ≡ [] → out ≡ [] → Tracks isn stream out state
  begun : (b r : ℕ) → Started isn stream b r out state → Tracks isn stream out state

abbrev pub TracksAfter : ℕ → List ℕ → List ℕ → Observed → Type 0
TracksAfter isn stream out o =
    Tracks isn stream (out ++ payload_of o.observation.stream_chunks) o.state

-- A position up to which the stream has certainly come, once a segment arrives: a slice that starts no
-- later extends it, an early one does not.
abbrev pub reach :
    {isn : ℕ} {stream : List ℕ} (segment : TcpSegment) (payload : List ℕ)
    → Sent isn stream segment payload
    → ℕ
    → ℕ
reach segment payload (reset q) r = r
reach segment payload (empty q) r = r
reach segment payload (slice s) r =
    if segment.flags.rst then r else if leb s.first r then max r s.last else r

lower :
    {isn b r q : ℕ} {stream out : List ℕ} {state : TcpDirectionState}
    → q ≤ r
    → Started isn stream b r out state
    → Started isn stream b q out state
lower h t = record {
  position = t.position;
  stands = t.stands;
  later = t.later;
  passed = omega (arith, t.passed);
  all = t.all;
}

module _ (isn : ℕ) (stream : List ℕ) (fits : Fits stream) (d : FlowDirection)
    (config : FlowTableConfig) (out : List ℕ) (flow_buffered_bytes : ℕ)
    (stats : FlowTableStats) where
  module _ {segment : TcpSegment} {payload : List ℕ} (s : Slice isn stream segment payload) where
    extended : ℕ → ℕ
    extended r = if leb s.first r then max r s.last else r

    abbrev After : TcpDirectionState → ℕ → ℕ → Option ℕ → Type 0
    After state b r next =
        StartedAfter isn stream b r out (
          observe_span d segment payload config flow_buffered_bytes (at isn s.last) next stats
            state)

    observe_at-Started :
        (state : TcpDirectionState) {b r : ℕ}
        → (t : Started isn stream b r out state)
        → After state b (extended r) (some (at isn t.position))
    unfolding observe_at observe_span extended
    observe_at-Started state {b} {r} t = elim (Bool-cases (s.first == t.position)) [
      | inl y ↦
          let same : t.position ≡ s.first = ground arith in
          rw (equal ∙ y) (
            lower (ground (arith, t.passed, s.nonempty)) (
              in_order-Started isn stream out fits s d stats state b
                (subst (λ q. At isn stream q state) same t.stands) (omega (arith, t.later))
                (t.all ∙ ap (between stream b) same)))
      | inr n ↦ rw (equal ∙ n) (elim (Bool-cases (ltb s.first t.position)) [
        | inl y ↦ rw (before ∙ y) (elim (Bool-cases (ltb t.position s.last)) [
          | inl y' ↦ rw (after ∙ y') (
              lower (ground (arith, t.passed)) (
                overlap-Started isn stream out fits s d stats state b t.position t.stands t.later
                  t.all (omega (arith, ltb→lt s.first t.position y)) (ltb→lt t.position s.last y')))
          | inr n' ↦ rw (after ∙ n') (
              retransmission-Started isn stream out fits s d stats state (record {
                position = t.position;
                stands = t.stands;
                later = t.later;
                passed = ground (arith, t.passed);
                all = t.all;
              }))
        ])
        | inr n' ↦ rw (before ∙ n') (
            lower (ground (arith, t.passed)) (
              buffered-Started isn stream out fits s d stats
                (buffer_out_of_order state segment payload config flow_buffered_bytes)
                (record {
                  position = t.position;
                  stands =
                      buffer-At isn stream out fits s d stats state t.position config
                        flow_buffered_bytes t.stands;
                  later = t.later;
                  passed = t.passed;
                  all = t.all;
                })))
      ])
    ]
      where
        equal : seq_eq segment.sequence_number (at isn t.position) ≡ (s.first == t.position)
        equal = rw s.sequence (
            seq_eq-at isn s.first t.position (omega (arith, s.inside, s.nonempty, t.stands.inside))
              (omega (arith, s.inside, s.nonempty, t.stands.inside)))

        before : seq_before segment.sequence_number (at isn t.position) ≡ ltb s.first t.position
        before = rw s.sequence (
            seq_before-at isn s.first t.position
              (omega (arith, s.inside, s.nonempty, t.stands.inside))
              (omega (arith, s.inside, s.nonempty, t.stands.inside)))

        after : seq_after (at isn s.last) (at isn t.position) ≡ ltb t.position s.last
        after =
            seq_after-at isn s.last t.position
              (omega (arith, s.inside, s.nonempty, t.stands.inside))
              (omega (arith, s.inside, s.nonempty, t.stands.inside))

    observe_span-Started :
        (state : TcpDirectionState) {b r : ℕ}
        → Started isn stream b r out state
        → After state b (extended r) state.next_seq
    observe_span-Started state {b} {r} t =
        subst (After state b (extended r)) (sym t.stands.next) (observe_at-Started state t)

    observe_span-idle :
        (state : TcpDirectionState)
        → state.next_seq ≡ none
        → state.buffered ≡ []
        → out ≡ []
        → After state s.first s.last state.next_seq
    unfolding observe_span
    observe_span-idle state n h e =
        subst (After state s.first s.last) (sym n)
          (init-Started isn stream out fits s d stats state h e)

  module _ (segment : TcpSegment) (payload : List ℕ) (state : TcpDirectionState) where
    end_ : ℕ
    end_ = wrapping_add segment.sequence_number (sequence_span segment)

    -- The three ways through `observe`: a reset, no sequence space, and the branches on a span.
    observe_cases {κ} :
        (P : Observed → Type κ)
        → ((status : TcpSequenceStatus)
            → (segment.flags.rst ≡ true) ⊎ ((sequence_span segment == 0) ≡ true)
            → P (observation segment status [] (count_segment segment state) stats))
        → (segment.flags.rst ≡ false
            → (sequence_span segment == 0) ≡ false
            → P (
                observe_span d segment payload config flow_buffered_bytes end_ state.next_seq stats
                  (raise_highest end_ (count_segment segment state))))
        → P (observe d segment payload config flow_buffered_bytes stats state)
    unfolding observe end_
    observe_cases P h k =
        if_both P segment.flags.rst (λ r. h TcpSequenceStatus.reset (inl r))
          (λ r.
            if_both P (sequence_span segment == 0) (λ z. h TcpSequenceStatus.no_sequence (inr z))
              (k r))

    spans : Slice isn stream segment payload → (sequence_span segment == 0) ≡ true → ⊥
    spans s z = omega (
      arith,
      (==_iff (sequence_span segment) 0).0 z,
      sequence_span-Slice isn stream fits s,
      s.sequence,
      s.nonempty,
      s.inside,
    )

    -- A segment with no effect on the stream leaves the reach as it was.
    reach_of_none :
        (sent : Sent isn stream segment payload) (r : ℕ)
        → (segment.flags.rst ≡ true) ⊎ ((sequence_span segment == 0) ≡ true)
        → reach segment payload sent r ≡ r
    reach_of_none (reset q) r h = refl
    reach_of_none (empty q) r h = refl
    reach_of_none (slice s) r (inl q) = rw q
    reach_of_none (slice s) r (inr z) = absurd (spans s z)

    counted-Started :
        {b r : ℕ}
        → Started isn stream b r out state
        → Started isn stream b r out (raise_highest end_ (count_segment segment state))
    unfolding raise_highest count_segment
    counted-Started t = same_place isn stream out refl refl t

    only_counted-Started :
        {b r : ℕ}
        → Started isn stream b r out state
        → Started isn stream b r out (count_segment segment state)
    unfolding count_segment
    only_counted-Started t = same_place isn stream out refl refl t

    pub observe-Started :
        (sent : Sent isn stream segment payload) {b r : ℕ}
        → Started isn stream b r out state
        → StartedAfter isn stream b
            (reach segment payload sent r)
            out
            (observe d segment payload config flow_buffered_bytes stats state)
    unfolding observation payload_of end_ extended raise_highest count_segment
    observe-Started sent {b} {r} t =
        observe_cases (StartedAfter isn stream b (reach segment payload sent r) out)
          (λ status h.
            subst (λ q. Started isn stream b q (out ++ []) (count_segment segment state))
              (sym (reach_of_none sent r h)) (quiet isn stream out (only_counted-Started t)))
          (go sent)
      where
        go :
            (sent : Sent isn stream segment payload)
            → segment.flags.rst ≡ false
            → (sequence_span segment == 0) ≡ false
            → StartedAfter isn stream b (reach segment payload sent r) out (
                observe_span d segment payload config flow_buffered_bytes end_ state.next_seq stats
                  (raise_highest end_ (count_segment segment state)))
        go (reset q) e z = absurd (ground arith)
        go (empty q) e z = absurd (ground arith)
        go (slice s) e z =
            subst
              (λ reset.
                Started isn stream b (if reset then r else extended s r)
                  (out ++ payload_of after.observation.stream_chunks) after.state)
              (sym e)
              (subst (λ q. StartedAfter isn stream b (extended s r) out (spanned q))
                (sym (sequence_span-Slice isn stream fits s))
                (observe_span-Started s counted (counted-Started t)))
          where
            counted : TcpDirectionState
            counted = raise_highest end_ (count_segment segment state)

            spanned : ℕ → Observed
            spanned q =
                observe_span d segment payload config flow_buffered_bytes q state.next_seq stats
                  counted

            after : Observed
            after = spanned end_

    -- The first slice that is no reset begins the stream where it starts.
    pub observe-first :
        (s : Slice isn stream segment payload)
        → segment.flags.rst ≡ false
        → state.next_seq ≡ none
        → state.buffered ≡ []
        → out ≡ []
        → StartedAfter isn stream s.first s.last out
            (observe d segment payload config flow_buffered_bytes stats state)
    unfolding end_ raise_highest count_segment
    observe-first s live n h e =
        observe_cases (StartedAfter isn stream s.first s.last out)
          (λ status q. absurd (no_effect q))
          (λ r z.
            subst (λ q. StartedAfter isn stream s.first s.last out (spanned q))
              (sym (sequence_span-Slice isn stream fits s)) (observe_span-idle s counted n h e))
      where
        counted : TcpDirectionState
        counted = raise_highest end_ (count_segment segment state)

        spanned : ℕ → Observed
        spanned q =
            observe_span d segment payload config flow_buffered_bytes q state.next_seq stats counted

        no_effect : (segment.flags.rst ≡ true) ⊎ ((sequence_span segment == 0) ≡ true) → ⊥
        no_effect (inl r) = cc
        no_effect (inr z) = spans s z

    still_idle :
        state.next_seq ≡ none
        → state.buffered ≡ []
        → out ≡ []
        → (segment.flags.rst ≡ true) ⊎ ((sequence_span segment == 0) ≡ true)
        → TracksAfter isn stream out
            (observe d segment payload config flow_buffered_bytes stats state)
    unfolding observation payload_of count_segment
    still_idle n h e q =
        observe_cases (TracksAfter isn stream out) (λ status q. idle n h (append-nil out ∙ e))
          (λ r z. absurd (none_of q r z))
      where
        none_of :
            (segment.flags.rst ≡ true) ⊎ ((sequence_span segment == 0) ≡ true)
            → segment.flags.rst ≡ false
            → (sequence_span segment == 0) ≡ false
            → ⊥
        none_of (inl q) r z = cc
        none_of (inr q) r z = ground arith

    observe-idle :
        (sent : Sent isn stream segment payload)
        → state.next_seq ≡ none
        → state.buffered ≡ []
        → out ≡ []
        → TracksAfter isn stream out
            (observe d segment payload config flow_buffered_bytes stats state)
    observe-idle (reset q) n h e = still_idle n h e (inl q)
    observe-idle (empty q) n h e = still_idle n h e (inr (ground arith))
    observe-idle (slice s) n h e = elim (Bool-cases segment.flags.rst) [
      | inl r ↦ still_idle n h e (inl r)
      | inr r ↦ begun s.first s.last (observe-first s r n h e)
    ]

    pub observe-Tracks :
        (sent : Sent isn stream segment payload)
        → Tracks isn stream out state
        → TracksAfter isn stream out
            (observe d segment payload config flow_buffered_bytes stats state)
    observe-Tracks sent (idle n h e) = observe-idle sent n h e
    observe-Tracks sent (begun b r t) =
        begun b (reach segment payload sent r) (observe-Started sent t)
