-- ===== src/Pool/Load.antt =====
-- The sets after `loadPoolFromDb`.
use relavoi_backend.Base.{
  ◌&&◌, ◌||◌, not, ◌∙◌, update_self, update_other, ℕ, ◌≡◌, ◌≢◌, refl, String, Bool, true, false,
  List, [], ◌∷◌, some, arith, contains, contains-sadd, contains-srem, update, or_else, string_eq,
  All, eq_iff, eq_refl,
}
use relavoi_backend.Store.{
  Redis, NumberRow, NumberStatus, available_status, in_use_status, cooldown_status,
  quarantined_status,
}
use relavoi_backend.Pool.{zcontains}
use relavoi_backend.Pool.Loading.{
  Place, in_available, in_in_use, in_cooldown, place_of, put_at, load_row, load_pool_from_db,
  row_region,
}
use relavoi_backend.Pool.Invariant.{zcontains-zrem, zcontains-zadd}

abbrev pub is_available : Place → Bool
is_available in_available = true
is_available _ = false

abbrev pub is_in_use : Place → Bool
is_in_use in_in_use = true
is_in_use _ = false

abbrev pub is_cooling : Place → Bool
is_cooling in_cooldown = true
is_cooling _ = false

abbrev is_status_available : NumberStatus → Bool
is_status_available available_status = true
is_status_available _ = false

abbrev is_status_in_use : NumberStatus → Bool
is_status_in_use in_use_status = true
is_status_in_use _ = false

abbrev is_status_cooling : NumberStatus → Bool
is_status_cooling cooldown_status = true
is_status_cooling _ = false

abbrev is_status_quarantined : NumberStatus → Bool
is_status_quarantined quarantined_status = true
is_status_quarantined _ = false

-- The number stands where its row and the sessions in service say, and nowhere else in its region.
pub record Loaded (held : List String) (row : NumberRow) (r : Redis) : Type 0 where
  pub located : r.proxy_region row.number ≡ some (row_region row)
  pub in_available_set :
      contains row.number (r.available (row_region row))
      ≡ (is_status_available row.status && not (contains row.number held))
  pub in_use_set : contains row.number (r.in_use (row_region row)) ≡ (
      is_status_in_use row.status
      || contains row.number held && not (is_status_quarantined row.status))
  pub in_cooldown_set :
      zcontains row.number (r.cooldown (row_region row))
      ≡ (is_status_cooling row.status && not (contains row.number held))

-- The ladder, by the status of the row.
place_of-status :
    (held : List String) (row : NumberRow)
    → (is_available (place_of held row)
        ≡ (is_status_available row.status && not (contains row.number held)))
      × (is_in_use (place_of held row) ≡ (
          is_status_in_use row.status
          || contains row.number held && not (is_status_quarantined row.status)))
      × (is_cooling (place_of held row)
          ≡ (is_status_cooling row.status && not (contains row.number held)))
unfolding place_of
place_of-status held row = ground arith

put_at_self :
    (pl : Place) (g p : String) (until : ℕ) (r : Redis)
    → (contains p ((put_at pl g p until r).available g) ≡ is_available pl)
      × (contains p ((put_at pl g p until r).in_use g) ≡ is_in_use pl)
      × (zcontains p ((put_at pl g p until r).cooldown g) ≡ is_cooling pl)
unfolding put_at update
put_at_self pl g p until r = ground (
  arith,
  eq_refl g,
  eq_refl p,
  contains-sadd p p (r.available g),
  contains-srem p p (r.available g),
  contains-sadd p p (r.in_use g),
  contains-srem p p (r.in_use g),
  zcontains-zadd p p until (r.cooldown g),
  zcontains-zrem p p (r.cooldown g),
)

-- Another number is where it was, in every region.
put_at_other :
    (pl : Place) (g h p q : String) (until : ℕ) (r : Redis)
    → p ≢ q
    → (contains q ((put_at pl g p until r).available h) ≡ contains q (r.available h))
      × (contains q ((put_at pl g p until r).in_use h) ≡ contains q (r.in_use h))
      × (zcontains q ((put_at pl g p until r).cooldown h) ≡ zcontains q (r.cooldown h))
unfolding put_at update
put_at_other pl g h p q until r ne = ground (
  arith,
  eq_iff g h,
  eq_iff p q,
  contains-sadd q p (r.available g),
  contains-srem q p (r.available g),
  contains-sadd q p (r.in_use g),
  contains-srem q p (r.in_use g),
  zcontains-zadd q p until (r.cooldown g),
  zcontains-zrem q p (r.cooldown g),
)

put_at-region :
    (pl : Place) (g p : String) (until : ℕ) (r : Redis)
    → (put_at pl g p until r).proxy_region ≡ r.proxy_region
unfolding put_at
put_at-region in_available g p until r = refl
put_at-region _ g p until r = refl

module _ (held : List String) (now : ℕ) where
  load_row-Loaded : (row : NumberRow) (r : Redis) → Loaded held row (load_row held now row r)
  unfolding load_row
  load_row-Loaded row r =
      let located = record r {
        proxy_region = update r.proxy_region row.number (some (row_region row));
      } in
      let until = or_else row.cooldown_until now in
      let (a, b, c) = put_at_self (place_of held row) (row_region row) row.number until located in
      let (d, e, g) = place_of-status held row in
      record {
        located = rw put_at-region (update_self _ _ _);
        in_available_set = a ∙ d;
        in_use_set = b ∙ e;
        in_cooldown_set = c ∙ g;
      }

  load_row-other :
      (row other : NumberRow) (r : Redis)
      → row.number ≢ other.number
      → Loaded held other r
      → Loaded held other (load_row held now row r)
  unfolding load_row
  load_row-other row other r ne l =
      let located = record r {
        proxy_region = update r.proxy_region row.number (some (row_region row));
      } in
      let until = or_else row.cooldown_until now in
      let (a, b, c) =
        put_at_other (place_of held row) (row_region row) (row_region other) row.number other.number
          until located ne in
      record {
        located = rw put_at-region (update_other r.proxy_region _ ne ∙ l.located);
        in_available_set = a ∙ l.in_available_set;
        in_use_set = b ∙ l.in_use_set;
        in_cooldown_set = c ∙ l.in_cooldown_set;
      }

  load-other :
      (rows : List NumberRow) (other : NumberRow) (r : Redis)
      → All (λ row. row.number ≢ other.number) rows
      → Loaded held other r
      → Loaded held other (load_pool_from_db held now rows r)
  unfolding load_pool_from_db
  load-other [] other r ne l = l
  load-other (row ∷ rows) other r ne l =
      load-other rows other (load_row held now row r) ne.1 (load_row-other row other r ne.0 l)

  -- No two rows of the table have the same number.
  abbrev pub HasDistinctNumbers : List NumberRow → Type 0
  HasDistinctNumbers [] = Unit
  HasDistinctNumbers (row ∷ rows) =
      All (λ later. later.number ≢ row.number) rows × HasDistinctNumbers rows

  -- After a load from a table with distinct numbers, whatever Redis held before, every number of
  -- the table is recorded with its region, and of the sets of that region it is among the available
  -- ones exactly if its status is that and no session in service holds it, in use exactly if its
  -- status is that, or one holds it and it is not quarantined, and cooling down exactly if its
  -- status is that and none holds it.
  pub load-Loaded :
      (rows : List NumberRow) (r : Redis)
      → HasDistinctNumbers rows
      → All (λ row. Loaded held row (load_pool_from_db held now rows r)) rows
  unfolding load_pool_from_db
  load-Loaded [] r d = tt
  load-Loaded (row ∷ rows) r d = (
    load-other rows row (load_row held now row r) d.0 (load_row-Loaded row r),
    load-Loaded rows (load_row held now row r) d.1,
  )
