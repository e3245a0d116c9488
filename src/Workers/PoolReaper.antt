-- ===== src/Workers/PoolReaper.antt =====
-- The return of numbers from their cooldown, src/workers/pool-reaper.ts.
use relavoi_backend.Base.{
  ℕ, ◌+◌, String, Bool, List, [], ◌∷◌, Option, none, some, if◌then◌else◌, contains, sadd, ◌==◌,
  string_eq,
}
use relavoi_backend.Store.{Redis, NumberRow}
use relavoi_backend.Pool.{default_region}
use relavoi_backend.Pool.Invariant.{Inv}
use relavoi_backend.Pool.Cycle.{reap_cooldown-Inv}
use relavoi_backend.Pool.Release.{reap_cooldown}

-- `interval`, in milliseconds.
abbrev pub interval_ms : ℕ
interval_ms = 30000

-- The regions that the rows have, each once and none of them empty.
unfoldable pub distinct_regions : List NumberRow → List String
unfolding sadd contains
distinct_regions [] = []
distinct_regions (row ∷ rest) = add row.region (distinct_regions rest)
  where
    add : Option String → List String → List String
    add none regions = regions
    add (some region) regions = if region == "" then regions else sadd region regions

-- The regions of a tick.
abbrev pub or_default : List String → List String
or_default [] = default_region ∷ []
or_default (region ∷ rest) = region ∷ rest

pub record ReaperAnswers : Type 0 where
  pub query_fails : Bool
  pub redis_fails : String → Bool
  pub table_fails : String → Bool
  pub now : String → ℕ

-- The loop over the regions, with the number of the numbers that came back.
unfoldable pub reap_regions :
    ReaperAnswers → List String → ℕ → Redis → List NumberRow → ℕ × Redis × List NumberRow
reap_regions a [] total r rows = (total, r, rows)
reap_regions a (region ∷ rest) total r rows =
    let (n, r', rows') =
      reap_cooldown (a.redis_fails region) (a.table_fails region) region (a.now region) r rows in
    reap_regions a rest (total + n) r' rows'

unfoldable pub tick : Bool → ReaperAnswers → Redis → List NumberRow → Redis × List NumberRow
tick in_flight a r rows =
    if in_flight
    then (r, rows)
    else if a.query_fails
    then (r, rows)
    else let (total, r', rows') = reap_regions a (or_default (distinct_regions rows)) 0 r rows in
      (r', rows')

-- Every history of ticks keeps the numbers of the pool apart.
pub reap_regions-Inv :
    (a : ReaperAnswers) (regions : List String) (total : ℕ) (r : Redis) (rows : List NumberRow)
    → Inv r
    → Inv (reap_regions a regions total r rows).1
unfolding reap_regions
reap_regions-Inv a [] total r rows v = v
reap_regions-Inv a (region ∷ rest) total r rows v =
    let (n, r', rows') =
      reap_cooldown (a.redis_fails region) (a.table_fails region) region (a.now region) r rows in
    reap_regions-Inv a rest (total + n) r' rows' (
      reap_cooldown-Inv (a.redis_fails region) (a.table_fails region) region (a.now region) r rows
        v)
