-- ===== src/Flow/Table/Evict.antt =====
-- The evictions of the flow table, and its invariant.
use rustmate.Base.{
  ℕ, suc, ◌+◌, ◌≤◌, ◌<◌, ◌≡◌, refl, ap, ◌∙◌, Option, none, some, arith, leb, leb→le, if_both,
  u64_max, saturating_add, length, get, remove_key, retain, min_by_key, Distinct, length-remove_key,
  Distinct-remove_key, Distinct-retain, length-retain-le, get-retain-none, get-remove_key-none,
  get-min_by_key, min_by_key-none,
}
use rustmate.Flow.Route.{FlowKey}
use rustmate.Flow.Entry.{FlowEntry}
use rustmate.Flow.Config.{FlowTableConfig}
use rustmate.Flow.Table.{FlowTable, FlowKey-discrete, is_fresh, evict_idle, evict_oldest, make_room}

-- The table is within its limit, no key stands twice, and of the flows created all are evicted or
-- still there.
pub record IsValid (t : FlowTable) : Type 0 where
  pub positive : 0 < t.config.max_flows
  pub bounded : length t.entries ≤ t.config.max_flows
  pub distinct : Distinct FlowKey-discrete t.entries
  pub balanced : t.stats.created_flows ≡ t.stats.evicted_flows + length t.entries
  pub small : t.stats.created_flows ≤ u64_max

-- What every eviction leaves alone.
pub record Evicts (t t' : FlowTable) : Type 0 where
  pub config : t'.config ≡ t.config
  pub created : t'.stats.created_flows ≡ t.stats.created_flows
  pub dropped_new : t'.stats.dropped_new_flows ≡ t.stats.dropped_new_flows
  pub absent :
      (key : FlowKey)
      → get FlowKey-discrete key t.entries ≡ none
      → get FlowKey-discrete key t'.entries ≡ none

pub Evicts-refl : {t : FlowTable} → Evicts t t
Evicts-refl = record { config = refl; created = refl; dropped_new = refl; absent = λ key h. h }

pub Evicts-trans : {t u v : FlowTable} → Evicts t u → Evicts u v → Evicts t v
Evicts-trans h k = record {
  config = k.config ∙ h.config;
  created = k.created ∙ h.created;
  dropped_new = k.dropped_new ∙ h.dropped_new;
  absent = λ key e. k.absent key (h.absent key e);
}

pub evict_idle-Evicts : (now_us : ℕ) (t : FlowTable) → Evicts t (evict_idle now_us t)
unfolding evict_idle
evict_idle-Evicts now_us t = record {
  config = refl;
  created = refl;
  dropped_new = refl;
  absent = λ key e. get-retain-none FlowKey-discrete key _ t.entries e;
}

pub evict_idle-IsValid : (now_us : ℕ) (t : FlowTable) → IsValid t → IsValid (evict_idle now_us t)
unfolding evict_idle
evict_idle-IsValid now_us t v = record {
  positive = v.positive;
  bounded = omega (arith, v.bounded, kept);
  distinct = Distinct-retain FlowKey-discrete _ t.entries v.distinct;
  balanced = omega (arith, v.balanced, v.small, kept);
  small = v.small;
}
  where
    kept : length (retain (is_fresh now_us t.config.idle_timeout_us) t.entries) ≤ length t.entries
    kept = length-retain-le FlowKey-discrete (is_fresh now_us t.config.idle_timeout_us) t.entries

-- The oldest entry goes, if there is one.
record EvictsOldest (t t' : FlowTable) : Type 0 where
  evicts : Evicts t t'
  valid : IsValid t'
  fewer : suc (length t'.entries) ≡ length t.entries

evict_oldest-EvictsOldest :
    (t : FlowTable) → IsValid t → 0 < length t.entries → EvictsOldest t (evict_oldest t)
unfolding evict_oldest
evict_oldest-EvictsOldest t v h = go (min_by_key (λ entry. entry.last_seen_us) t.entries) refl
  where
    go :
        (o : Option (FlowKey × FlowEntry))
        → min_by_key (λ entry. entry.last_seen_us) t.entries ≡ o
        → EvictsOldest t (elim o [
          | none ↦ t
          | some (key, entry) ↦ record t {
            entries = remove_key FlowKey-discrete key t.entries;
            stats = record t.stats { evicted_flows = saturating_add t.stats.evicted_flows 1 };
          }
        ])
    go none e = absurd (omega (arith, ap length (min_by_key-none FlowKey-discrete _ t.entries e)))
    go (some (key, entry)) e =
        let (w, found) = get-min_by_key FlowKey-discrete _ t.entries key entry e in
        let shorter = length-remove_key FlowKey-discrete key w t.entries found in
        record {
          evicts = record {
            config = refl;
            created = refl;
            dropped_new = refl;
            absent = λ i g. get-remove_key-none FlowKey-discrete i key t.entries g;
          };
          valid = record {
            positive = v.positive;
            bounded = omega (arith, v.bounded, shorter);
            distinct = Distinct-remove_key FlowKey-discrete key t.entries v.distinct;
            balanced = omega (arith, v.balanced, v.small, shorter);
            small = v.small;
          };
          fewer = shorter;
        }

-- A full table makes room for one flow.
pub record Roomy (t t' : FlowTable) : Type 0 where
  pub evicts : Evicts t t'
  pub valid : IsValid t'
  pub room : length t'.entries < t'.config.max_flows

pub make_room-Roomy : (now_us : ℕ) (t : FlowTable) → IsValid t → Roomy t (make_room now_us t)
unfolding make_room
make_room-Roomy now_us t v =
    if_both (Roomy t) (leb t.config.max_flows (length t.entries))
      (λ full.
        if_both (Roomy t)
          (leb (evict_idle now_us t).config.max_flows (length (evict_idle now_us t).entries))
          (λ still.
            let idle = evict_idle-IsValid now_us t v in
            let o = evict_oldest-EvictsOldest (evict_idle now_us t) idle (
              omega (
                arith,
                idle.positive,
                leb→le (evict_idle now_us t).config.max_flows (length (evict_idle now_us t).entries)
                    still,
              )) in
            record {
              evicts = Evicts-trans (evict_idle-Evicts now_us t) o.evicts;
              valid = o.valid;
              room = omega (
                arith,
                o.fewer,
                idle.bounded,
                ap (λ (c : FlowTableConfig). c.max_flows) o.evicts.config,
              );
            })
          (λ freed. record {
            evicts = evict_idle-Evicts now_us t;
            valid = evict_idle-IsValid now_us t v;
            room = ground arith;
          }))
      (λ roomy. record { evicts = Evicts-refl; valid = v; room = ground arith })
