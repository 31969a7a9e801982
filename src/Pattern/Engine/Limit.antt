-- ===== src/Pattern/Engine/Limit.antt =====
-- The limits on the matches that the engine reports.
use native.Mathlib.Decide.{ℕ_discrete}
use mathlib.Core.Logic.{if_pos, if_neg}
use rustmate.Base.{
  ℕ, ◌+◌, ◌≡◌, ◌≤◌, ◌<◌, refl, sym, ap, subst, ◌∙◌, Bool, true, false, ◌&&◌, ◌||◌, if◌then◌else◌,
  Option, none, some, List, [], ◌∷◌, ◌++◌, arith, leb, ◌==◌, if_both, u64_max, saturating_add,
  length, length-append, sum_map, All, any, get_elem?, take, drop, ◌-◌, get, set_value, get-front,
  Option-cases, inl, inr,
}
use rustmate.Content.Direction.{StreamContentRange, StreamContentWindow}
use rustmate.Content.Store.{StreamContent, StreamContentUpdate}
use rustmate.Content.Window.{direction_windows}
use rustmate.Pattern.Matchers.{Matchers}
use rustmate.Pattern.Set.{PatternEngineConfig, CompiledPattern, lookbehind_bytes}
use rustmate.Pattern.Engine.{
  PatternEngine, NewRange, MatchKey, CandidateMatch, same_key, match_key, or_insert_zero,
  matches_of, drop_match, reserve_match, push_event, pattern_fields, emit_match, emit_match_if_new,
  emit_candidates, candidates, scan_window, scan_windows, scan_range, scan_ranges, scan_update,
}

abbrev Counts : Type 0
Counts = List (ℕ × ℕ)

abbrev total : Counts → ℕ
total counts = sum_map (λ (p : ℕ × ℕ). p.1) counts

abbrev EachAtMost : ℕ → Counts → Type 0
EachAtMost most counts = All (λ (p : ℕ × ℕ). p.1 ≤ most) counts

total-set_value :
    (k n : ℕ) (counts : Counts)
    → get ℕ_discrete k counts ≡ some n
    → total (set_value ℕ_discrete k (n + 1) counts) ≡ total counts + 1
unfolding get set_value
total-set_value k n [] e = ground arith
total-set_value k n ((j, v) ∷ counts) e = ground (arith, total-set_value k n counts)

EachAtMost-set_value :
    (most k n : ℕ) (counts : Counts)
    → n ≤ most
    → EachAtMost most counts
    → EachAtMost most (set_value ℕ_discrete k n counts)
unfolding set_value
EachAtMost-set_value most k n [] h a = tt
EachAtMost-set_value most k n ((j, v) ∷ counts) h a = elim (ℕ_discrete j k) [
  | yes e ↦ rw (if_pos _ e) (h, a.1)
  | no e ↦ rw (if_neg _ e) (a.0, EachAtMost-set_value most k n counts h a.1)
]

-- What `or_insert_zero` leaves: the entry is there, the numbers are the same.
record Entered (k most : ℕ) (counts after : Counts) : Type 0 where
  entry : get ℕ_discrete k after ≡ some (matches_of k counts)
  same_total : total after ≡ total counts
  each : EachAtMost most after

or_insert_zero-Entered :
    (k most : ℕ) (counts : Counts)
    → EachAtMost most counts
    → Entered k most counts (or_insert_zero k counts)
unfolding or_insert_zero matches_of
or_insert_zero-Entered k most counts h = elim (Option-cases (get ℕ_discrete k counts)) [
  | inl e ↦
      let entry : matches_of k counts ≡ 0 = rw (e, matches_of) refl in
      rw (e, or_insert_zero)
        (record {
          entry = get-front ℕ_discrete k 0 counts ∙ ap some (sym entry);
          same_total = omega arith;
          each = (omega arith, h);
        })
  | inr (n, e) ↦
      let entry : matches_of k counts ≡ n = rw (e, matches_of) refl in
      rw (e, or_insert_zero)
        (record { entry = e ∙ ap some (sym entry); same_total = refl; each = h })
]

module _ (m : Matchers) (base64 : List ℕ → List ℕ) (config : PatternEngineConfig m)
    (before counted : ℕ) where
  -- The limits, that the counts of the streams add up to the total, and that there are no more events
  -- than `before` and the matches that have been counted since there were `counted`.
  record Limited (e : PatternEngine m base64) : Type 0 where
    same_config : e.config ≡ config
    in_total : e.stats.pattern_matches ≤ config.max_total_matches
    in_stream : EachAtMost config.max_matches_per_stream e.matches_by_stream
    added_up : total e.matches_by_stream ≡ e.stats.pattern_matches
    events : length e.events + counted ≤ before + e.stats.pattern_matches

  -- The same, but for an event that may still be pushed.
  record Reserved (r : Bool × PatternEngine m base64) : Type 0 where
    limited : Limited r.1
    room : r.0 ≡ true → length r.1.events + counted < before + r.1.stats.pattern_matches

  reserve_match-Reserved :
      (stream_id : ℕ) (e : PatternEngine m base64)
      → config.max_total_matches ≤ u64_max
      → config.max_matches_per_stream ≤ u64_max
      → Limited e
      → Reserved (reserve_match m base64 stream_id e)
  unfolding reserve_match drop_match
  reserve_match-Reserved stream_id e ut us l =
      if_both Reserved (leb e.config.max_total_matches e.stats.pattern_matches)
        (λ _. record {
          limited = record {
            same_config = l.same_config;
            in_total = l.in_total;
            in_stream = l.in_stream;
            added_up = l.added_up;
            events = l.events;
          };
          room = λ r. ground arith;
        })
        (λ t.
          if_both Reserved
            (leb e.config.max_matches_per_stream (matches_of stream_id e.matches_by_stream))
            (λ _. record {
              limited = record {
                same_config = l.same_config;
                in_total = l.in_total;
                in_stream = entered.each;
                added_up = entered.same_total ∙ l.added_up;
                events = l.events;
              };
              room = λ r. ground arith;
            })
            (λ p. record {
              limited = record {
                same_config = l.same_config;
                in_total = ground (arith, max_total, t);
                in_stream =
                    EachAtMost-set_value config.max_matches_per_stream stream_id
                      (saturating_add (matches_of stream_id e.matches_by_stream) 1)
                      (or_insert_zero stream_id e.matches_by_stream) (ground (arith, max_stream, p))
                      entered.each;
                added_up =
                    omega (arith, added (below p), entered.same_total, l.added_up, ut, in_range t);
                events = omega (arith, l.events, ut, in_range t);
              };
              room = λ _. omega (arith, l.events, ut, in_range t);
            }))
    where
      entered :
          Entered stream_id config.max_matches_per_stream e.matches_by_stream
            (or_insert_zero stream_id e.matches_by_stream)
      entered =
          or_insert_zero-Entered stream_id config.max_matches_per_stream e.matches_by_stream
            l.in_stream

      max_total : e.config.max_total_matches ≡ config.max_total_matches
      max_total = ap (λ (c : PatternEngineConfig m). c.max_total_matches) l.same_config

      max_stream : e.config.max_matches_per_stream ≡ config.max_matches_per_stream
      max_stream = ap (λ (c : PatternEngineConfig m). c.max_matches_per_stream) l.same_config

      in_range :
          leb e.config.max_total_matches e.stats.pattern_matches ≡ false
          → e.stats.pattern_matches < u64_max
      in_range t = ground (arith, max_total, ut)

      below :
          leb e.config.max_matches_per_stream (matches_of stream_id e.matches_by_stream) ≡ false
          → matches_of stream_id e.matches_by_stream < u64_max
      below p = ground (arith, max_stream, us)

      exact :
          matches_of stream_id e.matches_by_stream < u64_max
          → saturating_add (matches_of stream_id e.matches_by_stream) 1
            ≡ matches_of stream_id e.matches_by_stream + 1
      exact b = omega (arith, b)

      added :
          matches_of stream_id e.matches_by_stream < u64_max
          → total (
              set_value ℕ_discrete stream_id
                (saturating_add (matches_of stream_id e.matches_by_stream) 1)
                (or_insert_zero stream_id e.matches_by_stream))
            ≡ total (or_insert_zero stream_id e.matches_by_stream) + 1
      added b =
          ap
            (λ n.
              total
                (set_value ℕ_discrete stream_id n (or_insert_zero stream_id e.matches_by_stream)))
            (exact b)
          ∙ total-set_value stream_id (matches_of stream_id e.matches_by_stream)
              (or_insert_zero stream_id e.matches_by_stream) entered.entry

  panicked_Limited :
      (e : PatternEngine m base64) → Limited e → Limited (record e { panicked = true })
  panicked_Limited e l = record {
    same_config = l.same_config;
    in_total = l.in_total;
    in_stream = l.in_stream;
    added_up = l.added_up;
    events = l.events;
  }

  push_event-Limited :
      (window : StreamContentWindow) (c : CandidateMatch) (absolute_start absolute_end : ℕ)
      (e : PatternEngine m base64)
      → Limited e
      → length e.events + counted < before + e.stats.pattern_matches
      → Limited (push_event m base64 window c absolute_start absolute_end e)
  unfolding push_event
  push_event-Limited window c absolute_start absolute_end e l room =
      go (get_elem? e.config.set.patterns c.pattern_index)
    where
      go :
          (pattern : Option (CompiledPattern m))
          → Limited (elim pattern [
            | none ↦ record e { panicked = true }
            | some pattern ↦
                if leb c.start c.end && leb c.end (length window.bytes)
                then record e {
                  events =
                      e.events
                      ++ pattern_fields m base64 pattern window absolute_start absolute_end
                          (take (c.end - c.start) (drop c.start window.bytes))
                        ∷ [];
                }
                else record e { panicked = true }
          ])
      go none = panicked_Limited e l
      go (some pattern) =
          if_both Limited (leb c.start c.end && leb c.end (length window.bytes))
            (λ _. record {
              same_config = l.same_config;
              in_total = l.in_total;
              in_stream = l.in_stream;
              added_up = l.added_up;
              events = omega (
                arith,
                room,
                length-append e.events (
                    pattern_fields m base64 pattern window absolute_start absolute_end
                      (take (c.end - c.start) (drop c.start window.bytes))
                    ∷ []),
              );
            })
            (λ _. panicked_Limited e l)

  module _ (ut : config.max_total_matches ≤ u64_max)
      (us : config.max_matches_per_stream ≤ u64_max) where
    emit_match-Limited :
        (window : StreamContentWindow) (c : CandidateMatch) (absolute_start absolute_end : ℕ)
        (e : PatternEngine m base64)
        → Limited e
        → Limited (emit_match m base64 window c absolute_start absolute_end e)
    unfolding emit_match
    emit_match-Limited window c absolute_start absolute_end e l =
        let r = reserve_match-Reserved window.stream_id e ut us l in
        if_both Limited (reserve_match m base64 window.stream_id e).0
          (λ reserved.
            push_event-Limited window c absolute_start absolute_end
              (reserve_match m base64 window.stream_id e).1 r.limited (r.room reserved))
          (λ _. r.limited)

    emit_match_if_new-Limited :
        (window : StreamContentWindow) (new_range : NewRange) (c : CandidateMatch)
        (e : PatternEngine m base64)
        → Limited e
        → Limited (emit_match_if_new m base64 window new_range c e)
    unfolding emit_match_if_new
    emit_match_if_new-Limited window new_range c e l =
        if_both Limited (c.start == c.end) (λ _. l)
          (λ _.
            if_both Limited (leb new_range.end key.start || leb key.end new_range.start) (λ _. l)
              (λ _.
                if_both Limited (any (same_key key) e.emitted) (λ _. l)
                  (λ _.
                    emit_match-Limited window c key.start key.end
                      (record e { emitted = key ∷ e.emitted })
                      (record {
                        same_config = l.same_config;
                        in_total = l.in_total;
                        in_stream = l.in_stream;
                        added_up = l.added_up;
                        events = l.events;
                      }))))
      where
        key : MatchKey
        key = match_key window c

    emit_candidates-Limited :
        (window : StreamContentWindow) (new_range : NewRange) (found : List CandidateMatch)
        (e : PatternEngine m base64)
        → Limited e
        → Limited (emit_candidates m base64 window new_range found e)
    unfolding emit_candidates
    emit_candidates-Limited window new_range [] e l = l
    emit_candidates-Limited window new_range (c ∷ found) e l =
        emit_candidates-Limited window new_range found
          (emit_match_if_new m base64 window new_range c e)
          (emit_match_if_new-Limited window new_range c e l)

    scan_window-Limited :
        (window : StreamContentWindow) (new_range : NewRange) (e : PatternEngine m base64)
        → Limited e
        → Limited (scan_window m base64 window new_range e)
    unfolding scan_window
    scan_window-Limited window new_range e l = go (candidates m base64 e.config window.bytes)
      where
        go :
            (found : Option (List CandidateMatch))
            → Limited (elim found [
              | none ↦ record e { panicked = true }
              | some found ↦ emit_candidates m base64 window new_range found e
            ])
        go none = panicked_Limited e l
        go (some found) = emit_candidates-Limited window new_range found e l

    scan_windows-Limited :
        (new_range : NewRange) (windows : List StreamContentWindow) (e : PatternEngine m base64)
        → Limited e
        → Limited (scan_windows m base64 new_range windows e)
    unfolding scan_windows
    scan_windows-Limited new_range [] e l = l
    scan_windows-Limited new_range (window ∷ windows) e l =
        scan_windows-Limited new_range windows (scan_window m base64 window new_range e)
          (scan_window-Limited window new_range e l)

    scan_range-Limited :
        (content : StreamContent) (update : StreamContentUpdate) (range : StreamContentRange)
        (e : PatternEngine m base64)
        → Limited e
        → Limited (scan_range m base64 content update range e)
    unfolding scan_range
    scan_range-Limited content update range e l = go (
        direction_windows update.key range.direction
          (range.logical_start - lookbehind_bytes m e.config) range.logical_end content)
      where
        go :
            (windows : Option (List StreamContentWindow))
            → Limited (elim windows [
              | none ↦ e
              | some windows ↦
                  scan_windows m base64
                    (record { start = range.logical_start; end = range.logical_end })
                    windows
                    e
            ])
        go none = l
        go (some windows) = scan_windows-Limited _ windows e l

    scan_ranges-Limited :
        (content : StreamContent) (update : StreamContentUpdate) (ranges : List StreamContentRange)
        (e : PatternEngine m base64)
        → Limited e
        → Limited (scan_ranges m base64 content update ranges e)
    unfolding scan_ranges
    scan_ranges-Limited content update [] e l = l
    scan_ranges-Limited content update (range ∷ ranges) e l =
        scan_ranges-Limited content update ranges _ (scan_range-Limited content update range e l)

-- The matches are within both limits, and those of the streams add up to the total.
pub record IsValid (m : Matchers) (base64 : List ℕ → List ℕ) (e : PatternEngine m base64)
    : Type 0 where
  pub in_total : e.stats.pattern_matches ≤ e.config.max_total_matches
  pub in_stream : EachAtMost e.config.max_matches_per_stream e.matches_by_stream
  pub added_up : total e.matches_by_stream ≡ e.stats.pattern_matches

module _ (m : Matchers) (base64 : List ℕ → List ℕ) (e : PatternEngine m base64)
    (content : StreamContent) (update : StreamContentUpdate)
    (ut : e.config.max_total_matches ≤ u64_max)
    (us : e.config.max_matches_per_stream ≤ u64_max) where
  scan_update-Limited :
      IsValid m base64 e
      → Limited m base64 e.config
          (length e.events)
          e.stats.pattern_matches
          (scan_update m base64 content update e)
  unfolding scan_update
  scan_update-Limited v =
      if_both (Limited m base64 e.config (length e.events) e.stats.pattern_matches) e.config.enabled
        (λ _.
          let l =
            scan_ranges-Limited m base64 e.config (length e.events) e.stats.pattern_matches ut us
              content update update.ranges (record e { emitted = [] }) (start [] v) in
          record {
            same_config = l.same_config;
            in_total = l.in_total;
            in_stream = l.in_stream;
            added_up = l.added_up;
            events = l.events;
          })
        (λ _. start e.emitted v)
    where
      start :
          (emitted : List MatchKey)
          → IsValid m base64 e
          → Limited m base64 e.config
              (length e.events)
              e.stats.pattern_matches
              (record e { emitted = emitted })
      start emitted v = record {
        same_config = refl;
        in_total = v.in_total;
        in_stream = v.in_stream;
        added_up = v.added_up;
        events = omega arith;
      }

  -- From a valid engine, whose limits are 64-bit numbers, any update leaves a valid one: no more matches
  -- than allowed in a stream and in all, those of the streams adding up to the total; and it pushes at
  -- most as many events as it counts matches.
  pub scan_update-IsValid :
      IsValid m base64 e
      → IsValid m base64 (scan_update m base64 content update e)
        × (length (scan_update m base64 content update e).events + e.stats.pattern_matches
            ≤ length e.events + (scan_update m base64 content update e).stats.pattern_matches)
  scan_update-IsValid v =
      let l = scan_update-Limited v in
      (
        record {
          in_total =
              subst
                (λ (c : PatternEngineConfig m).
                  (scan_update m base64 content update e).stats.pattern_matches
                  ≤ c.max_total_matches)
                (sym l.same_config) l.in_total;
          in_stream =
              subst
                (λ (c : PatternEngineConfig m).
                  EachAtMost c.max_matches_per_stream
                    (scan_update m base64 content update e).matches_by_stream)
                (sym l.same_config) l.in_stream;
          added_up = l.added_up;
        },
        l.events,
      )
