-- ===== src/EventBus/Tests.antt =====
-- The bus with an event whose handler throws.
use relavoi_backend.Base.{
  arith, length, ◌+◌, ◌≤◌, contains, ◌≡◌, refl, String, List, [], ◌∷◌, some, true, false, ◌==◌,
  string_eq,
}
use relavoi_backend.EventBus.{
  max_len, trim_stream, payload_of, event_of, handle_entry, batch_size, handle_batch, read_round,
  publish, bus_step, Bus, Entry, BusStep, PublishFaults, RoundFaults, published, reads, run_steps,
}
use relavoi_backend.EventBus.Delivery.{Delivers, added, run_steps-Delivers}

abbrev ready : Bus String
ready = record {
  has_group = true;
  waiting = [];
  pending = [];
  calls = [];
  channel = [];
  consumers = "call.ended::billing::1" ∷ [];
}

abbrev entry : String → Entry
entry id = record { id = id; kind = some "call.ended"; payload = some "{}" }

abbrev first_throws : RoundFaults
first_throws = record {
  read_fails = false;
  throws = λ id. id == "1-0";
  xack_fails = λ id. false;
  recreate_fails = false;
}

abbrev no_publish_faults : PublishFaults
no_publish_faults = record { xadd_fails = false; pubsub_fails = false; evicted = 5 }

abbrev history : List BusStep
history =
    published no_publish_faults (some "t1") (entry "1-0")
    ∷ published no_publish_faults (some "t1") (entry "2-0")
    ∷ reads "call.ended::billing::1" first_throws
    ∷ reads "call.ended::billing::1" first_throws
    ∷ []

-- The event whose handler threw stays pending after another round.
one_pending : (run_steps "call.ended" (λ t. some t) "" history ready).pending ≡ "1-0" ∷ []
unfolding trim_stream run_steps bus_step contains publish read_round handle_batch batch_size
    handle_entry event_of payload_of
one_pending = refl

waits_few : length ready.waiting + length (added history) ≤ max_len
unfolding added
waits_few = omega arith

run_steps-Delivers_example :
    Delivers "call.ended"
      (λ t. some t)
      ""
      ready
      (run_steps "call.ended" (λ t. some t) "" history ready)
      (added history)
run_steps-Delivers_example =
    run_steps-Delivers "call.ended" (λ t. some t) "" history ready refl waits_few
