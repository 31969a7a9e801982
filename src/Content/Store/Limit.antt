-- ===== src/Content/Store/Limit.antt =====
-- The limit on the bytes of all streams together, and the count of them.
use rustmate.Base.{
  ℕ, suc, ◌+◌, ◌≤◌, ◌≡◌, refl, ap, ◌∙◌, subst, inl, inr, true, not, Option, none, some, [], ◌∷◌,
  arith, Bool-cases, Option-cases, length, sum_map, get, remove_key, retain, min_by_key, ltb,
  if◌then◌else◌, Distinct, length-remove_key, Distinct-remove_key, get-retain-none,
  get-remove_key-none, get-min_by_key, min_by_key-none, loop, loop_inv, loop_ends,
}
use rustmate.Flow.Route.{FlowKey}
use rustmate.Flow.Table.{FlowKey-discrete}
use rustmate.Content.Config.{StreamContentConfig}
use rustmate.Content.Record.{ContentRecord, stored_bytes}
use rustmate.Content.Store.{
  Streams, StreamContent, remove_stream, is_key, candidates, evict_oldest, limit_step,
  enforce_global_limit,
}

-- The bytes that the streams hold.
abbrev pub held : Streams → ℕ
held streams = sum_map (λ (e : FlowKey × ContentRecord). stored_bytes e.1) streams

-- No key stands twice, and the store's count of bytes is what its streams hold.
pub record Balanced (c : StreamContent) : Type 0 where
  pub distinct : Distinct FlowKey-discrete c.streams
  pub counted : c.stored_bytes ≡ held c.streams

held-remove_key :
    (key : FlowKey) (r : ContentRecord) (streams : Streams)
    → get FlowKey-discrete key streams ≡ some r
    → held (remove_key FlowKey-discrete key streams) + stored_bytes r ≡ held streams
unfolding get remove_key
held-remove_key key r [] e = absurd (ground arith)
held-remove_key key r ((k, x) ∷ streams) e = ground (arith, held-remove_key key r streams)

-- What the removal of a stream does to the store.
pub record Removed (c c' : StreamContent) : Type 0 where
  pub balanced : Balanced c'
  pub config : c'.config ≡ c.config
  pub fewer : suc (length c'.streams) ≡ length c.streams
  pub absent :
      (i : FlowKey)
      → get FlowKey-discrete i c.streams ≡ none
      → get FlowKey-discrete i c'.streams ≡ none

pub remove_stream-Removed :
    (key : FlowKey) (r : ContentRecord) (c : StreamContent)
    → get FlowKey-discrete key c.streams ≡ some r
    → Balanced c
    → Removed c (remove_stream key c)
unfolding remove_stream
remove_stream-Removed key r c e b =
    rw (e, remove_stream)
      (record {
        balanced = record {
          distinct = Distinct-remove_key FlowKey-discrete key c.streams b.distinct;
          counted = omega (arith, b.counted, held-remove_key key r c.streams e);
        };
        config = refl;
        fewer = length-remove_key FlowKey-discrete key r c.streams e;
        absent = λ i n. get-remove_key-none FlowKey-discrete i key c.streams n;
      })

get-candidates :
    (except : Option FlowKey) (key : FlowKey) (r : ContentRecord) (streams : Streams)
    → get FlowKey-discrete key (candidates except streams) ≡ some r
    → (x : ContentRecord) × (get FlowKey-discrete key streams ≡ some x)
unfolding candidates
get-candidates none key r streams e = (r, e)
get-candidates (some except) key r streams e =
    elim (Option-cases (get FlowKey-discrete key streams)) [
      | inr s ↦ s
      | inl n ↦
          let gone =
            get-retain-none FlowKey-discrete key (λ k _. not (is_key except k)) streams n in
          absurd (ground arith)
    ]

pub evict_oldest-Removed :
    (except : Option FlowKey) (c c' : StreamContent)
    → evict_oldest except c ≡ some c'
    → Balanced c
    → Removed c c'
unfolding evict_oldest
evict_oldest-Removed except c c' e b = elim (Option-cases found) [
  | inl n ↦ absurd (ground arith)
  | inr ((key, r), s) ↦
      let (w, g) =
        get-min_by_key FlowKey-discrete (λ (r : ContentRecord). r.last_seen_us)
          (candidates except c.streams) key r s in
      let (x, h) = get-candidates except key w c.streams g in
      subst (λ u. Removed c u) (same key r s) (remove_stream-Removed key x c h b)
]
  where
    found : Option (FlowKey × ContentRecord)
    found = min_by_key (λ (r : ContentRecord). r.last_seen_us) (candidates except c.streams)

    same : (key : FlowKey) (r : ContentRecord) → found ≡ some (key, r) → remove_stream key c ≡ c'
    same key r s = ground arith

is_key-true : (key other : FlowKey) → is_key key other ≡ true → key ≡ other
unfolding is_key
is_key-true key other e = elim (FlowKey-discrete key other) [
  | yes p ↦ p
  | no n ↦ absurd (ground arith)
]

-- Distinct streams of which none but `current_key` can go are at most one.
candidates-none :
    (current_key : FlowKey) (streams : Streams)
    → Distinct FlowKey-discrete streams
    → candidates (some current_key) streams ≡ []
    → length streams ≤ 1
unfolding candidates is_key retain get
candidates-none current_key [] d e = omega arith
candidates-none current_key (x ∷ []) d e = omega arith
candidates-none current_key ((k, x) ∷ (k', x') ∷ streams) d e =
    absurd (ground (arith, is_key-true current_key k, is_key-true current_key k', d.0))

-- The loop over its limit removes a stream.
limit_step-Removed :
    (current_key : FlowKey) (c c' : StreamContent)
    → limit_step current_key c ≡ some c'
    → Balanced c
    → Removed c c'
unfolding limit_step
limit_step-Removed current_key c c' e b =
    evict_oldest-Removed (if ltb 1 (length c.streams) then some current_key else none) c c'
      (ground arith) b

pub evict_oldest-none :
    (except : Option FlowKey) (c : StreamContent)
    → evict_oldest except c ≡ none
    → candidates except c.streams ≡ []
unfolding evict_oldest
evict_oldest-none except c e =
    min_by_key-none FlowKey-discrete (λ (r : ContentRecord). r.last_seen_us)
      (candidates except c.streams) (ground arith)

-- Where the loop ends, the limit is kept.
limit_step-none :
    (current_key : FlowKey) (c : StreamContent)
    → limit_step current_key c ≡ none
    → Balanced c
    → c.stored_bytes ≤ c.config.max_total_bytes
unfolding limit_step candidates
limit_step-none current_key c e b =
    elim (Bool-cases (ltb c.config.max_total_bytes c.stored_bytes)) [
      | inr h ↦ ground arith
      | inl h ↦ elim (Bool-cases (ltb 1 (length c.streams))) [
        | inl more ↦
            let few =
              candidates-none current_key c.streams b.distinct
                (evict_oldest-none (some current_key) c (ground arith)) in
            absurd (ground (arith, few))
        | inr more ↦
            let nothing : held c.streams ≡ 0 = ap held (evict_oldest-none none c (ground arith)) in
            omega (arith, nothing, b.counted)
      ]
    ]

-- In a store with an exact count of bytes and no key twice: once `enforce_global_limit` is done,
-- the streams hold no more bytes than the configuration allows, the configuration is the same, and
-- the store's count is still exact.
pub enforce_global_limit-Balanced :
    (current_key : FlowKey) (c : StreamContent)
    → Balanced c
    → Balanced (enforce_global_limit current_key c)
      × ((enforce_global_limit current_key c).config ≡ c.config)
      × (held (enforce_global_limit current_key c).streams ≤ c.config.max_total_bytes)
unfolding enforce_global_limit
enforce_global_limit-Balanced current_key c b =
    let (after, same) : Balanced final × (final.config ≡ c.config) =
      loop_inv (limit_step current_key) (λ (s : StreamContent). Balanced s × (s.config ≡ c.config))
        (λ s t h e.
          let r = limit_step-Removed current_key s t e h.0 in (r.balanced, r.config ∙ h.1))
        (suc (length c.streams)) c (b, refl) in
    let ended =
      loop_ends (limit_step current_key) Balanced (λ s. length s.streams)
        (λ s t h e.
          let r = limit_step-Removed current_key s t e h in (r.balanced, omega (arith, r.fewer)))
        (suc (length c.streams)) c (omega arith) b in
    let within = limit_step-none current_key final ended after in
    (
      after,
      same,
      omega
          (arith, after.counted, within, ap (λ (k : StreamContentConfig). k.max_total_bytes) same),
    )
  where
    final : StreamContent
    final = loop (limit_step current_key) (suc (length c.streams)) c
