-- ===== src/EventConsumers/Sandbox.antt =====
-- Usage that is not known to be live.
use relavoi_backend.Billing.{
  Ledger, Metric, UsageAnswers, UsageRecord, ensure_active_period, get_usage_summary, insert_usage,
  is_active_of, is_billable, latest, open_period, record_usage,
}
use relavoi_backend.EventConsumers.{
  is_subscribed, run_handler, meter_asked, alerting, get_tenant_id, known_metric, metered, metering,
  push, safe_deliver_webhook, safe_push, tenant_webhook, meter, row_mode, safe_meter_usage,
  ConsumerAnswers, EventPayload, EventType, Group, Office, handle, resolve_mode,
}
use relavoi_backend.Base.{
  ℕ, ◌≡◌, refl, sym, ap, ◌∙◌, subst, String, Bool, false, List, [], ◌∷◌, Option, none, some,
  keep_if, arith, Option-cases, inl, inr, if_holds, All, ◌==◌, string_eq, or_else, leb,
}
use relavoi_backend.Store.{SessionRow, sandbox, truthy, is_text}

-- The records that a summary counts.
abbrev pub counted : String → ℕ → ℕ → Ledger → List UsageRecord
counted tenant from until x = keep_if (is_billable tenant from until) x.usage

pub get_usage_summary-counted :
    (fails : Bool) (tenant : String) (from until : ℕ) (x y : Ledger)
    → counted tenant from until x ≡ counted tenant from until y
    → get_usage_summary fails tenant from until x ≡ get_usage_summary fails tenant from until y
unfolding get_usage_summary
get_usage_summary-counted fails tenant from until x y same = rw same refl

module _ (month : ℕ → ℕ × ℕ) where
  pub ensure_active_period-usage :
      (a : UsageAnswers) (tenant : String) (x : Ledger)
      → (ensure_active_period month a tenant x).1.usage ≡ x.usage
  unfolding ensure_active_period open_period
  ensure_active_period-usage a tenant x =
      if_holds Same a.period_read_fails refl
        (elim (Option-cases (latest (keep_if (is_active_of tenant) x.periods))) [
          | inr (q, there) ↦ rw there refl
          | inl nothing ↦ rw nothing (if_holds Same a.period_insert_fails refl refl)
        ])
    where
      Same : Option String × Ledger → Type 0
      Same res = res.1.usage ≡ x.usage

  -- A sandbox record is in the table, but in no summary.
  insert_usage-counted :
      (a : UsageAnswers) (tenant : String) (m : Metric) (quantity : ℕ)
      (res : Option String × Ledger) (t : String) (from until : ℕ)
      → counted t from until (insert_usage month a tenant m quantity sandbox res)
        ≡ counted t from until res.1
  unfolding insert_usage
  insert_usage-counted a tenant m quantity (none, x) t from until = refl
  insert_usage-counted a tenant m quantity (some period, x) t from until =
      if_holds (λ y. counted t from until y ≡ counted t from until x) a.usage_insert_fails refl
        (ground arith)

  record_usage-counted :
      (a : UsageAnswers) (tenant : String) (m : Metric) (quantity : ℕ) (x : Ledger) (t : String)
      (from until : ℕ)
      → counted t from until (record_usage month a tenant m quantity sandbox x)
        ≡ counted t from until x
  unfolding record_usage
  record_usage-counted a tenant m quantity x t from until = if_holds Same (tenant == "") refl (
      if_holds Same (leb quantity 0) refl (
        insert_usage-counted a tenant m quantity (ensure_active_period month a tenant x) t from
          until
        ∙ ap (keep_if (is_billable t from until)) (ensure_active_period-usage a tenant x)))
    where
      Same : Ledger → Type 0
      Same y = counted t from until y ≡ counted t from until x

-- Neither the payload nor the session that it names says that the event is live.
pub record NotLive (rows : String → Option SessionRow) (p : EventPayload) : Type 0 where
  pub unsaid : is_text p.mode "live" ≡ false
  pub sandboxed :
      (row : SessionRow) → rows (or_else p.session_id "") ≡ some row → row.mode ≡ sandbox

row_mode-sandbox :
    (o : Option SessionRow)
    → ((row : SessionRow) → o ≡ some row → row.mode ≡ sandbox)
    → row_mode o ≡ sandbox
row_mode-sandbox none h = refl
row_mode-sandbox (some row) h = h row refl

resolve_mode-sandbox :
    (a : ConsumerAnswers) (p : EventPayload) (x : Office)
    → NotLive x.rows p
    → resolve_mode a p x ≡ sandbox
unfolding resolve_mode
resolve_mode-sandbox a p x v = rw v.unsaid (
    if_holds (λ m. m ≡ sandbox) (is_text p.mode "sandbox") refl
      (if_holds (λ m. m ≡ sandbox) (truthy p.session_id)
        (if_holds (λ m. m ≡ sandbox) a.mode_read_fails refl
          (row_mode-sandbox (x.rows (or_else p.session_id "")) v.sandboxed))
        refl))

-- An event as a consumer group gets it.
pub record Handled : Type 0 where
  pub event : EventType
  pub group : Group
  pub payload : EventPayload
  pub answers : ConsumerAnswers

module _ (month : ℕ → ℕ × ℕ) (stringify : String → String → String → String)
    (sign : String → String → String → String) where
  pub handle_all : List Handled → Office → Office
  handle_all [] x = x
  handle_all (h ∷ hs) x =
      handle_all hs (handle month stringify sign h.answers h.event h.group h.payload x)

  -- What a handler keeps: the rows of the sessions, and what the summaries count.
  record Keeps (x y : Office) : Type 0 where
    rows : y.rows ≡ x.rows
    counts :
        (tenant : String) (from until : ℕ)
        → counted tenant from until y.ledger ≡ counted tenant from until x.ledger

  Keeps-refl : (x : Office) → Keeps x x
  Keeps-refl x = record { rows = refl; counts = λ tenant from until. refl }

  safe_meter_usage-Keeps :
      (a : ConsumerAnswers) (tenant : Option String) (name : String) (quantity : ℕ) (x : Office)
      → Keeps x (safe_meter_usage month stringify sign a tenant name quantity sandbox x)
  unfolding safe_meter_usage
  safe_meter_usage-Keeps a tenant name quantity x =
      if_holds (Keeps x) (truthy tenant)
        (elim (Option-cases (known_metric name)) [
          | inl unknown ↦ rw unknown (Keeps-refl x)
          | inr (m, known) ↦ rw known (record {
            rows = refl;
            counts = λ t from until.
                record_usage-counted month a.usage (or_else tenant "") m quantity x.ledger t from
                  until;
          })
        ])
        (Keeps-refl x)

  meter_asked-Keeps :
      (a : ConsumerAnswers) (ask : Option (String × ℕ)) (p : EventPayload) (x : Office)
      → NotLive x.rows p
      → Keeps x (meter_asked month stringify sign a ask p x)
  unfolding meter_asked
  meter_asked-Keeps a none p x v = Keeps-refl x
  meter_asked-Keeps a (some (name, quantity)) p x v =
      subst
        (λ m. Keeps x (safe_meter_usage month stringify sign a (get_tenant_id p) name quantity m x))
        (sym (resolve_mode-sandbox a p x v))
        (safe_meter_usage-Keeps a (get_tenant_id p) name quantity x)

  run_handler-Keeps :
      (a : ConsumerAnswers) (event : EventType) (group : Group) (p : EventPayload) (x : Office)
      → NotLive x.rows p
      → Keeps x (run_handler month stringify sign a event group p x)
  unfolding run_handler meter safe_deliver_webhook safe_push
  run_handler-Keeps a event metering p x v = meter_asked-Keeps a (metered event p) p x v
  run_handler-Keeps a event tenant_webhook p x v =
      if_holds (Keeps x) (truthy (get_tenant_id p))
        (record { rows = refl; counts = λ t from until. refl }) (Keeps-refl x)
  run_handler-Keeps a event push p x v =
      if_holds (Keeps x) _
        (if_holds (Keeps x) a.push_fails (Keeps-refl x)
          (record { rows = refl; counts = λ t from until. refl }))
        (Keeps-refl x)
  run_handler-Keeps a event alerting p x v = Keeps-refl x

  handle-Keeps :
      (a : ConsumerAnswers) (event : EventType) (group : Group) (p : EventPayload) (x : Office)
      → NotLive x.rows p
      → Keeps x (handle month stringify sign a event group p x)
  unfolding handle
  handle-Keeps a event group p x v =
      if_holds (Keeps x) (is_subscribed event group) (run_handler-Keeps a event group p x v)
        (Keeps-refl x)

  handle_all-Keeps :
      (hs : List Handled) (x : Office)
      → All (λ (h : Handled). NotLive x.rows h.payload) hs
      → Keeps x (handle_all hs x)
  unfolding handle_all
  handle_all-Keeps [] x v = Keeps-refl x
  handle_all-Keeps (h ∷ hs) x (v, vs) =
      let y = handle month stringify sign h.answers h.event h.group h.payload x in
      let one = handle-Keeps h.answers h.event h.group h.payload x v in
      let more =
        handle_all-Keeps hs y
          (subst (λ rows. All (λ (k : Handled). NotLive rows k.payload) hs) (sym one.rows) vs) in
      record {
        rows = more.rows ∙ one.rows;
        counts = λ t from until. more.counts t from until ∙ one.counts t from until;
      }

  -- Whatever events are handled, by any of their groups and in any order, with whatever fails: if
  -- no payload says that it is live, and no session that a payload names is live, the summary of
  -- every tenant and period is as before. Nobody is billed for sandbox usage, or for usage whose
  -- mode is not known.
  pub handle_all-sandbox :
      (hs : List Handled) (x : Office) (fails : Bool) (tenant : String) (from until : ℕ)
      → All (λ (h : Handled). NotLive x.rows h.payload) hs
      → get_usage_summary fails tenant from until (handle_all hs x).ledger
        ≡ get_usage_summary fails tenant from until x.ledger
  handle_all-sandbox hs x fails tenant from until v =
      get_usage_summary-counted fails tenant from until (handle_all hs x).ledger x.ledger
        ((handle_all-Keeps hs x v).counts tenant from until)
