-- ===== src/EventBus/Delivery.antt =====
-- How often the bus hands an entry to the handler of its group.
use relavoi_backend.Store.{truthy}
use mathlib.Core.List.{append_assoc, append-nil}
use relavoi_backend.Base.{
  leb, length, length-append, ◌+◌, ◌-◌, ◌≤◌, subst, if◌then◌else◌, if_not, ◌&&◌, not, ◌≡◌, refl,
  zero, suc, Option-cases, sym, ap, ◌∙◌, String, Bool, true, false, List, [], ◌∷◌, ◌++◌, Option,
  none, some, if_holds, take, drop, arith, ℕ, Bool-cases, inl, inr, contains,
}
use relavoi_backend.EventBus.{
  max_len, trim_stream, take_batch, Entry, Bus, BusEvent, BusStep, published, subscribed, reads,
  closes, PublishFaults, RoundFaults, publish, create_group, subscribe, close, event_of,
  handle_entry, handle_batch, read_round, bus_step, run_steps, batch_size,
}

take-drop : (n : ℕ) (es : List Entry) → take n es ++ drop n es ≡ es
take-drop zero es = refl
take-drop (suc n) [] = refl
take-drop (suc n) (e ∷ es) = ap (λ t. e ∷ t) (take-drop n es)

-- A stream within its length is not trimmed.
trim_stream-kept :
    (evicted : ℕ) (es : List Entry) → length es ≤ max_len → trim_stream evicted es ≡ es
unfolding trim_stream
trim_stream-kept evicted es h =
    let none_dropped : (if leb evicted (length es - max_len) then evicted else length es - max_len)
        ≡ 0 =
      ground (arith, h) in
    ap (λ n. drop n es) none_dropped

-- The entries that are added to the stream.
unfoldable pub added : List BusStep → List Entry
added [] = []
added (published f tenant e ∷ ss) = let rest = added ss in if f.xadd_fails then rest else e ∷ rest
added (subscribed fails key ∷ ss) = added ss
added (reads key f ∷ ss) = added ss
added (closes ∷ ss) = added ss

added-cons : (s : BusStep) (ss : List BusStep) → added (s ∷ []) ++ added ss ≡ added (s ∷ ss)
unfolding added
added-cons (published f tenant e) ss = ground arith
added-cons (subscribed fails key) ss = refl
added-cons (reads key f) ss = refl
added-cons closes ss = refl

module _ {Payload : Type 0} (name : String) (parse : String → Option Payload)
    (empty : Payload) where
  -- What the handler is called with for entries in turn; an entry whose payload does not parse is
  -- left out.
  unfoldable pub events_of : List Entry → List (BusEvent Payload)
  events_of [] = []
  events_of (e ∷ es) =
      let rest = events_of es in
      elim (event_of name parse empty e) [ none ↦ rest | some event ↦ event ∷ rest ]

  events_of-append : (es ds : List Entry) → events_of (es ++ ds) ≡ events_of es ++ events_of ds
  unfolding events_of
  events_of-append [] ds = refl
  events_of-append (e ∷ es) ds = elim (Option-cases (event_of name parse empty e)) [
    | inl h ↦ rw (h, events_of) (events_of-append es ds)
    | inr (event, h) ↦ rw (h, events_of) (ap (λ t. event ∷ t) (events_of-append es ds))
  ]

  -- From `b` to `c` the group has been given `given`, of what waited and the new entries.
  pub record Delivers (b c : Bus Payload) (fresh : List Entry) : Type 0 where
    pub given : List Entry
    pub in_order : given ++ c.waiting ≡ b.waiting ++ fresh
    pub called : c.calls ≡ b.calls ++ events_of given
    pub still : c.has_group ≡ true

  -- What a batch leaves as it is, and the calls that it makes.
  record Handles (b c : Bus Payload) (es : List Entry) : Type 0 where
    waits : c.waiting ≡ b.waiting
    groups : c.has_group ≡ b.has_group
    calls : c.calls ≡ b.calls ++ events_of es

  handle_entry-Handles :
      (f : RoundFaults) (e : Entry) (b : Bus Payload)
      → Handles b (handle_entry name parse empty f e b) (e ∷ [])
  unfolding handle_entry events_of
  handle_entry-Handles f e b = elim (Option-cases (event_of name parse empty e)) [
    | inl h ↦ record {
      waits = rw (h, handle_entry) refl;
      groups = rw (h, handle_entry) refl;
      calls = rw (h, handle_entry, events_of) (sym (append-nil b.calls));
    }
    | inr (event, h) ↦ record {
      waits = rw (h, handle_entry) refl;
      groups = rw (h, handle_entry) refl;
      calls = rw (h, handle_entry, events_of) refl;
    }
  ]

  handle_batch-Handles :
      (f : RoundFaults) (es : List Entry) (b : Bus Payload)
      → Handles b (handle_batch name parse empty f es b) es
  unfolding handle_batch events_of
  handle_batch-Handles f [] b = record {
    waits = refl;
    groups = refl;
    calls = sym (append-nil b.calls);
  }
  handle_batch-Handles f (e ∷ es) b =
      let first = handle_entry-Handles f e b in
      let rest = handle_batch-Handles f es (handle_entry name parse empty f e b) in
      record {
        waits = rest.waits ∙ first.waits;
        groups = rest.groups ∙ first.groups;
        calls =
            rest.calls
            ∙ ap (λ t. t ++ events_of es) first.calls
            ∙ append_assoc b.calls (events_of (e ∷ [])) (events_of es)
            ∙ ap (λ t. b.calls ++ t) (sym (events_of-append (e ∷ []) es));
      }

  same_waits :
      (b c : Bus Payload)
      → c.waiting ≡ b.waiting
      → c.calls ≡ b.calls
      → c.has_group ≡ true
      → Delivers b c []
  unfolding events_of
  same_waits b c w k g = record {
    given = [];
    in_order = w ∙ sym (append-nil b.waiting);
    called = k ∙ sym (append-nil b.calls);
    still = g;
  }

  Delivers-trans :
      (b c d : Bus Payload) (es ds : List Entry)
      → Delivers b c es
      → Delivers c d ds
      → Delivers b d (es ++ ds)
  Delivers-trans b c d es ds x y = record {
    given = x.given ++ y.given;
    in_order =
        append_assoc x.given y.given d.waiting
        ∙ ap (λ t. x.given ++ t) y.in_order
        ∙ sym (append_assoc x.given c.waiting ds)
        ∙ ap (λ t. t ++ ds) x.in_order
        ∙ append_assoc b.waiting es ds;
    called =
        y.called
        ∙ ap (λ t. t ++ events_of y.given) x.called
        ∙ append_assoc b.calls (events_of x.given) (events_of y.given)
        ∙ ap (λ t. b.calls ++ t) (sym (events_of-append x.given y.given));
    still = y.still;
  }

  read_round-Delivers :
      (f : RoundFaults) (b : Bus Payload)
      → b.has_group ≡ true
      → Delivers b (read_round name parse empty f b) []
  unfolding read_round
  read_round-Delivers f b g =
      let handled = handle_batch-Handles f (take batch_size b.waiting) (take_batch b) in
      if_holds (λ c. Delivers b c []) f.read_fails (same_waits b b refl refl g)
        (if_not (λ c. Delivers b c []) (not b.has_group) (create_group f.recreate_fails b)
          (ap not g)
          (record {
            given = take batch_size b.waiting;
            in_order =
                ap (λ t. take batch_size b.waiting ++ t) handled.waits
                ∙ take-drop batch_size b.waiting
                ∙ sym (append-nil b.waiting);
            called = handled.calls;
            still = handled.groups ∙ g;
          }))

  publish-Delivers :
      (f : PublishFaults) (tenant : Option String) (e : Entry) (b : Bus Payload)
      → b.has_group ≡ true
      → length b.waiting + length (added (published f tenant e ∷ [])) ≤ max_len
      → Delivers b (publish f tenant e b).1 (added (published f tenant e ∷ []))
  unfolding publish added events_of
  publish-Delivers f tenant e b g room = elim (Bool-cases f.xadd_fails) [
    | inl h ↦ simp h (
        if_holds (λ c. Delivers b c []) (truthy tenant && not f.pubsub_fails)
          (same_waits b _ refl refl g) (same_waits b b refl refl g))
    | inr h ↦
        let one : length (added (published f tenant e ∷ [])) ≡ 1 = simp h refl in
        let kept : trim_stream f.evicted (b.waiting ++ (e ∷ [])) ≡ b.waiting ++ (e ∷ []) =
          trim_stream-kept f.evicted (b.waiting ++ (e ∷ []))
            (omega (arith, length-append b.waiting (e ∷ []), room, one)) in
        simp (h, g, kept)
          (if_holds (λ c. Delivers b c (e ∷ [])) (truthy tenant && not f.pubsub_fails)
            (record {
              given = [];
              in_order = refl;
              called = sym (append-nil b.calls);
              still = refl;
            })
            (record {
              given = [];
              in_order = refl;
              called = sym (append-nil b.calls);
              still = refl;
            }))
  ]

  create_group_kept :
      (fails : Bool) (b : Bus Payload) → b.has_group ≡ true → create_group fails b ≡ b
  unfolding create_group
  create_group_kept true b g = refl
  create_group_kept false b g = simp g refl

  subscribe-Delivers :
      (fails : Bool) (key : String) (b : Bus Payload)
      → b.has_group ≡ true
      → Delivers b (subscribe fails key b) []
  unfolding subscribe
  subscribe-Delivers fails key b g =
      if_holds (λ c. Delivers b c []) (contains key b.consumers) (same_waits b b refl refl g)
        (simp (create_group_kept fails b g) (same_waits b _ refl refl g))

  bus_step-Delivers :
      (s : BusStep) (b : Bus Payload)
      → b.has_group ≡ true
      → length b.waiting + length (added (s ∷ [])) ≤ max_len
      → Delivers b (bus_step name parse empty s b) (added (s ∷ []))
  unfolding bus_step added close
  bus_step-Delivers (published f tenant e) b g room = publish-Delivers f tenant e b g room
  bus_step-Delivers (subscribed fails key) b g room = subscribe-Delivers fails key b g
  bus_step-Delivers (reads key f) b g room =
      if_holds (λ c. Delivers b c []) (contains key b.consumers) (read_round-Delivers f b g)
        (same_waits b b refl refl g)
  bus_step-Delivers closes b g room = same_waits b (close b) refl refl g

  -- While the group is there and the entries that waited and the new ones are no more than ten
  -- thousand, so that none of them is dropped from the stream: whatever is published, however many
  -- consumers take turns and whatever fails, they are handed to the group once each, in their order,
  -- and the rest of them still waits. The handler is called once for each that parses; an entry at
  -- which it throws, or which cannot be acknowledged, is not handed out again.
  pub run_steps-Delivers :
      (ss : List BusStep) (b : Bus Payload)
      → b.has_group ≡ true
      → length b.waiting + length (added ss) ≤ max_len
      → Delivers b (run_steps name parse empty ss b) (added ss)
  unfolding run_steps added
  run_steps-Delivers [] b g room = same_waits b b refl refl g
  run_steps-Delivers (s ∷ ss) b g room =
      let c = bus_step name parse empty s b in
      let all : length (added (s ∷ [])) + length (added ss) ≡ length (added (s ∷ ss)) =
        sym (length-append (added (s ∷ [])) (added ss)) ∙ ap length (added-cons s ss) in
      let first = bus_step-Delivers s b g (omega (arith, room, all)) in
      let left : length first.given + length c.waiting
          ≡ length b.waiting + length (added (s ∷ [])) =
        sym (length-append first.given c.waiting)
        ∙ ap length first.in_order
        ∙ length-append b.waiting (added (s ∷ [])) in
      subst (λ t. Delivers b (run_steps name parse empty (s ∷ ss) b) t) (added-cons s ss)
        (Delivers-trans b c _ (added (s ∷ [])) (added ss) first
          (run_steps-Delivers ss c first.still (omega (arith, room, all, left))))
