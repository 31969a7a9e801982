-- ===== src/Slice/Reader/History.antt =====
-- A slice gives back the history of a direction.
use rustmate.Base.{
  ℕ, ◌-◌, ◌≡◌, ◌≤◌, ◌<◌, refl, sym, ap, subst, true, false, some, List, [], ◌∷◌, arith, leb, ◌==◌,
  min, max, u64_max, length, length-take, length-drop, take, drop, append-nil, get, Bool-cases, inl,
  inr,
}
use rustmate.Flow.Route.{FlowKey}
use rustmate.Flow.Table.{FlowKey-discrete}
use rustmate.Flow.Tcp.{at_direction}
use rustmate.Content.Direction.{StreamContentWindow}
use rustmate.Content.Direction.History.{Holds}
use rustmate.Content.Record.{ContentRecord}
use rustmate.Content.Store.{StreamContent}
use rustmate.Content.Window.{windows, direction_windows}
use rustmate.Content.Window.History.{windows-Holds}
use rustmate.Slice.Segment.{Base64, segment_from_window, concatenated_bytes}
use rustmate.Slice.Highlight.{StreamPatternMatch}
use rustmate.Slice.Reader.{
  StreamSliceConfig, StreamSliceRequest, StreamContentSlice, ok, count_bytes, requested_end_of,
  slice_of, slice_with_context,
}

-- The bytes of `history` from offset `from` up to `to`.
abbrev pub between : ℕ → ℕ → List ℕ → List ℕ
between from to history = take (to - from) (drop from history)

module _ (b : Base64) (config : StreamSliceConfig) (request : StreamSliceRequest)
    (matches : List StreamPatternMatch) where
  -- The slice has exactly these bytes, counts them, and they are not more than asked for.
  pub record Reads (bytes : List ℕ) (slice : StreamContentSlice) : Type 0 where
    pub exact : concatenated_bytes b slice.segments ≡ bytes
    pub counted : slice.returned_bytes ≡ length bytes

  slice_of-Reads :
      (window : StreamContentWindow)
      → length window.bytes ≤ u64_max
      → Reads window.bytes (slice_of b config request matches (window ∷ []))
  unfolding slice_of concatenated_bytes segment_from_window count_bytes
  slice_of-Reads window u = record {
    exact = rw (b.decode-encode window.bytes) (append-nil window.bytes);
    counted = omega (arith, u);
  }

  slice_of-none : Reads [] (slice_of b config request matches [])
  unfolding slice_of concatenated_bytes count_bytes
  slice_of-none = record { exact = refl; counted = refl }

  module _ (content : StreamContent) (key : FlowKey) (r : ContentRecord) (history : List ℕ)
      (present : get FlowKey-discrete key content.streams ≡ some r)
      (held : Holds history (at_direction request.direction r.directions))
      (u : length history ≤ u64_max) where
    abbrev from : ℕ
    from = max held.first request.logical_start

    abbrev to : ℕ
    to = min (length history) (requested_end_of b config request)

    found : List StreamContentWindow
    found =
        windows r.id request.direction request.logical_start (requested_end_of b config request)
          (at_direction request.direction r.directions).segments

    found-Reads : Reads (between from to history) (slice_of b config request matches found)
    unfolding found
    found-Reads =
        subst (λ ws. Reads (between from to history) (slice_of b config request matches ws))
          (sym (
            windows-Holds r.id request.direction history
              (at_direction request.direction r.directions) request.logical_start
              (requested_end_of b config request) held u))
          (elim (Bool-cases (leb to from)) [
            | inl e ↦ rw e (
                subst (λ bs. Reads bs (slice_of b config request matches [])) (nothing e)
                  slice_of-none)
            | inr e ↦ rw e (slice_of-Reads _ short)
          ])
      where
        zero_length : leb to from ≡ true → 0 ≡ to - from
        zero_length e = ground arith

        nothing : leb to from ≡ true → [] ≡ between from to history
        nothing e = ap (λ n. take n (drop from history)) (zero_length e)

        short : length (between from to history) ≤ u64_max
        short =
            omega (arith, u, length-take (to - from) (drop from history), length-drop from history)

    slice_of-found :
        (request.max_bytes == 0) ≡ false
        → slice_with_context b config content request key matches
          ≡ ok (slice_of b config request matches found)
    unfolding slice_with_context direction_windows found
    slice_of-found z = rw (z, present) refl

    span_le :
        requested_end_of b config request - request.logical_start
        ≤ max (min request.max_bytes config.max_slice_bytes) 1
    unfolding requested_end_of
    span_le = omega arith

    -- Of a stream whose content holds the end of a history of at most 2^64 - 1 bytes, a slice of at least
    -- one byte is always returned; its bytes are those of the history that the content still holds, from
    -- the requested offset on, up to the request's end, and it counts them; they are no more than the
    -- request asks for, nor than the configuration allows (at least 1).
    pub slice_with_context-Holds :
        0 < request.max_bytes
        → 0 < config.max_slice_bytes
        → (slice : StreamContentSlice) × (slice_with_context b config content request key matches
            ≡ ok slice)
          × Reads (between from to history) slice
          × (slice.returned_bytes ≤ min request.max_bytes config.max_slice_bytes)
    slice_with_context-Holds p q =
        (slice_of b config request matches found, returned (ground arith), found-Reads, small)
      where
        returned :
            (request.max_bytes == 0) ≡ false
            → slice_with_context b config content request key matches
              ≡ ok (slice_of b config request matches found)
        returned z = slice_of-found z

        size :
            length (between from to history)
            ≤ requested_end_of b config request - request.logical_start
        size = omega (arith, length-take (to - from) (drop from history))

        small :
            (slice_of b config request matches found).returned_bytes
            ≤ min request.max_bytes config.max_slice_bytes
        small = omega (arith, size, found-Reads.counted, span_le, p, q)
