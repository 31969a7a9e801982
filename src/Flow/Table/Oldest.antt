-- ===== src/Flow/Table/Oldest.antt =====
-- Which flow `evict_oldest` takes.
use rustmate.Base.{
  ◌≤◌, ◌<◌, ◌≡◌, ap, length, refl, inl, inr, some, arith, Option-cases, All, get, remove_key,
  min_by_key, min_by_key-none, min_by_key-le, min_by_key-get,
}
use rustmate.Flow.Table.Evict.{IsValid}
use rustmate.Flow.Route.{FlowKey}
use rustmate.Flow.Entry.{FlowEntry}
use rustmate.Flow.Table.{FlowTable, FlowKey-discrete, evict_oldest}

-- From a valid table that is not empty, `evict_oldest` takes exactly one flow, and no flow that is
-- there was last seen before it.
pub evict_oldest-Oldest :
    (t : FlowTable)
    → IsValid t
    → 0 < length t.entries
    → (key : FlowKey) × (entry : FlowEntry) × (get FlowKey-discrete key t.entries ≡ some entry)
      × All (λ (e : FlowKey × FlowEntry). entry.last_seen_us ≤ e.1.last_seen_us) t.entries
      × ((evict_oldest t).entries ≡ remove_key FlowKey-discrete key t.entries)
unfolding evict_oldest
evict_oldest-Oldest t v some_flow =
    elim (Option-cases (min_by_key (λ (e : FlowEntry). e.last_seen_us) t.entries)) [
      | inl n ↦
          let nothing : length t.entries ≡ 0 =
            ap length
              (min_by_key-none FlowKey-discrete (λ (e : FlowEntry). e.last_seen_us) t.entries n) in
          absurd (omega (arith, nothing))
      | inr ((key, entry), e) ↦ (
        key,
        entry,
        min_by_key-get FlowKey-discrete (λ (e : FlowEntry). e.last_seen_us) t.entries key entry
            v.distinct e,
        min_by_key-le FlowKey-discrete (λ (e : FlowEntry). e.last_seen_us) t.entries key entry e,
        rw (e, evict_oldest) refl,
      )
    ]
