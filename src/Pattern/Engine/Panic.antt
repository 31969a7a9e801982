-- ===== src/Pattern/Engine/Panic.antt =====
-- That an engine with compiled patterns never panics.
use rustmate.Base.{
  ℕ, zero, suc, ◌-◌, ◌≡◌, ◌<◌, refl, ap, ◌∙◌, Bool, true, false, ◌&&◌, ◌||◌, some, List, [], ◌∷◌,
  arith, leb, ◌==◌, if_both, All, any, get_elem?, length, Option-cases, inl, inr,
}
use rustmate.Content.Direction.{StreamContentRange, StreamContentWindow}
use rustmate.Content.Store.{StreamContent, StreamContentUpdate}
use rustmate.Content.Window.{direction_windows}
use rustmate.Pattern.Matchers.{Matchers}
use rustmate.Pattern.Set.{PatternDefinition, PatternEngineConfig, ok, compile, lookbehind_bytes}
use rustmate.Pattern.Set.Compile.{compile-WellFormed}
use rustmate.Pattern.Engine.{
  PatternEngine, NewRange, MatchKey, CandidateMatch, same_key, match_key, matches_of, drop_match,
  reserve_match, push_event, emit_match, emit_match_if_new, emit_candidates, candidates,
  scan_window, scan_windows, scan_range, scan_ranges, scan_update,
}
use rustmate.Pattern.Engine.Range.{InRange, candidates-InRange}
use rustmate.Pattern.Set.Indices.{WellFormed}

module _ (m : Matchers) (base64 : List ℕ → List ℕ) (config : PatternEngineConfig m)
    (w : WellFormed m config.set) where
  record Calm (e : PatternEngine m base64) : Type 0 where
    same_config : e.config ≡ config
    calm : e.panicked ≡ false

  reserve_match-Calm :
      (stream_id : ℕ) (e : PatternEngine m base64)
      → Calm e
      → Calm (reserve_match m base64 stream_id e).1
  unfolding reserve_match drop_match
  reserve_match-Calm stream_id e l =
      if_both (λ (r : Bool × PatternEngine m base64). Calm r.1)
        (leb e.config.max_total_matches e.stats.pattern_matches)
        (λ _. record { same_config = l.same_config; calm = l.calm })
        (λ _.
          if_both (λ (r : Bool × PatternEngine m base64). Calm r.1)
            (leb e.config.max_matches_per_stream (matches_of stream_id e.matches_by_stream))
            (λ _. record { same_config = l.same_config; calm = l.calm })
            (λ _. record { same_config = l.same_config; calm = l.calm }))

  get_elem?-some :
      {A : Type 0} (i : ℕ) (xs : List A) → i < length xs → (x : A) × (get_elem? xs i ≡ some x)
  get_elem?-some i [] h = absurd (omega arith)
  get_elem?-some zero (x ∷ xs) h = (x, refl)
  get_elem?-some (suc i) (x ∷ xs) h = get_elem?-some i xs (omega arith)

  push_event-Calm :
      (window : StreamContentWindow) (c : CandidateMatch) (absolute_start absolute_end : ℕ)
      (e : PatternEngine m base64)
      → InRange (length config.set.patterns) window.bytes c
      → Calm e
      → Calm (push_event m base64 window c absolute_start absolute_end e)
  unfolding push_event
  push_event-Calm window c absolute_start absolute_end e r l =
      let (pattern, found) =
        get_elem?-some c.pattern_index e.config.set.patterns (omega (arith, r.0, size)) in
      rw (found, push_event, inside) (record { same_config = l.same_config; calm = l.calm })
    where
      size : length e.config.set.patterns ≡ length config.set.patterns
      size = ap (λ (k : PatternEngineConfig m). length k.set.patterns) l.same_config

      inside : (leb c.start c.end && leb c.end (length window.bytes)) ≡ true
      inside = ground (arith, r.1, r.2)

  emit_match_if_new-Calm :
      (window : StreamContentWindow) (new_range : NewRange) (c : CandidateMatch)
      (e : PatternEngine m base64)
      → InRange (length config.set.patterns) window.bytes c
      → Calm e
      → Calm (emit_match_if_new m base64 window new_range c e)
  unfolding emit_match_if_new emit_match
  emit_match_if_new-Calm window new_range c e r l =
      if_both Calm (c.start == c.end) (λ _. l)
        (λ _.
          if_both Calm (leb new_range.end key.start || leb key.end new_range.start) (λ _. l)
            (λ _.
              if_both Calm (any (same_key key) e.emitted) (λ _. l)
                (λ _.
                  if_both Calm (reserve_match m base64 window.stream_id noted).0
                    (λ _. push_event-Calm window c key.start key.end _ r reserved)
                    (λ _. reserved))))
    where
      key : MatchKey
      key = match_key window c

      noted : PatternEngine m base64
      noted = record e { emitted = key ∷ e.emitted }

      reserved : Calm (reserve_match m base64 window.stream_id noted).1
      reserved =
          reserve_match-Calm window.stream_id noted
            (record { same_config = l.same_config; calm = l.calm })

  emit_candidates-Calm :
      (window : StreamContentWindow) (new_range : NewRange) (found : List CandidateMatch)
      (e : PatternEngine m base64)
      → All (InRange (length config.set.patterns) window.bytes) found
      → Calm e
      → Calm (emit_candidates m base64 window new_range found e)
  unfolding emit_candidates
  emit_candidates-Calm window new_range [] e r l = l
  emit_candidates-Calm window new_range (c ∷ found) e r l =
      emit_candidates-Calm window new_range found (emit_match_if_new m base64 window new_range c e)
        r.1 (emit_match_if_new-Calm window new_range c e r.0 l)

  scan_window-Calm :
      (window : StreamContentWindow) (new_range : NewRange) (e : PatternEngine m base64)
      → Calm e
      → Calm (scan_window m base64 window new_range e)
  unfolding scan_window
  scan_window-Calm window new_range e l =
      let (found, s, r) = candidates-InRange m base64 config window.bytes w in
      rw
        (
          ap (λ (k : PatternEngineConfig m). candidates m base64 k window.bytes) l.same_config ∙ s,
          scan_window,
        )
        (emit_candidates-Calm window new_range found e r l)

  scan_windows-Calm :
      (new_range : NewRange) (windows : List StreamContentWindow) (e : PatternEngine m base64)
      → Calm e
      → Calm (scan_windows m base64 new_range windows e)
  unfolding scan_windows
  scan_windows-Calm new_range [] e l = l
  scan_windows-Calm new_range (window ∷ windows) e l =
      scan_windows-Calm new_range windows (scan_window m base64 window new_range e)
        (scan_window-Calm window new_range e l)

  scan_range-Calm :
      (content : StreamContent) (update : StreamContentUpdate) (range : StreamContentRange)
      (e : PatternEngine m base64)
      → Calm e
      → Calm (scan_range m base64 content update range e)
  unfolding scan_range
  scan_range-Calm content update range e l =
      elim (Option-cases (
        direction_windows update.key range.direction
          (range.logical_start - lookbehind_bytes m e.config) range.logical_end content)) [
            | inl n ↦ rw (n, scan_range) l
            | inr (windows, s) ↦ rw (s, scan_range) (scan_windows-Calm _ windows e l)
          ]

  scan_ranges-Calm :
      (content : StreamContent) (update : StreamContentUpdate) (ranges : List StreamContentRange)
      (e : PatternEngine m base64)
      → Calm e
      → Calm (scan_ranges m base64 content update ranges e)
  unfolding scan_ranges
  scan_ranges-Calm content update [] e l = l
  scan_ranges-Calm content update (range ∷ ranges) e l =
      scan_ranges-Calm content update ranges (scan_range m base64 content update range e)
        (scan_range-Calm content update range e l)

  scan_update-Calm :
      (content : StreamContent) (update : StreamContentUpdate) (e : PatternEngine m base64)
      → Calm e
      → Calm (scan_update m base64 content update e)
  unfolding scan_update
  scan_update-Calm content update e l =
      if_both Calm e.config.enabled
        (λ _.
          let k =
            scan_ranges-Calm content update update.ranges (record e { emitted = [] })
              (record { same_config = l.same_config; calm = l.calm }) in
          record { same_config = k.same_config; calm = k.calm })
        (λ _. l)

-- With patterns that `compile` has accepted, and matchers that keep their promises, no index and no
-- slice of `scan_update` is out of range, whatever the content and the update.
pub scan_update-panicked :
    (m : Matchers) (base64 : List ℕ → List ℕ) (definitions : List PatternDefinition)
    (max_matches_per_stream max_total_matches regex_window_bytes : ℕ) (e : PatternEngine m base64)
    (content : StreamContent) (update : StreamContentUpdate)
    → compile m definitions max_matches_per_stream max_total_matches regex_window_bytes
      ≡ ok e.config
    → e.panicked ≡ false
    → (scan_update m base64 content update e).panicked ≡ false
scan_update-panicked m base64 definitions max_matches_per_stream max_total_matches
      regex_window_bytes e content update c p =
    (scan_update-Calm m base64 e.config
      (compile-WellFormed m definitions max_matches_per_stream max_total_matches regex_window_bytes
        e.config c)
      content update e (record { same_config = refl; calm = p })).calm
