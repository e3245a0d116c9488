-- ===== src/EventBus.antt =====
-- The event bus, src/services/event-bus.ts, for one type of events and one group of consumers.
--
-- Redis Streams as documented: `XADD` appends an entry and may drop the oldest ones; `XREADGROUP` with ">" gives the first entries
-- that the group has not been given yet and lists them as pending; `XACK` takes one off that list;
-- `XGROUP CREATE` with "$" makes a group that is given the entries which are added later. The
-- consumers of the group take turns by rounds of their loops; what a handler does is its own part's,
-- so here its calls are kept. Logs are left out.
pub mod Delivery
mod Tests
use relavoi_backend.Base.{
  ℕ, ◌-◌, leb, length, String, Bool, true, false, not, ◌&&◌, ◌||◌, List, [], ◌∷◌, ◌++◌, Option,
  none, some, if◌then◌else◌, or_else, contains, keep_if, map, take, drop, ◌==◌, string_eq,
}
use relavoi_backend.Store.{truthy}

pub record Entry : Type 0 where
  pub id : String
  pub kind : Option String  -- the field `type`
  pub payload : Option String

-- What a handler is called with.
pub record BusEvent (Payload : Type 0) : Type 0 where
  pub id : String
  pub kind : String
  pub payload : Payload

pub record Bus (Payload : Type 0) : Type 0 where
  pub has_group : Bool
  pub waiting : List Entry  -- the entries that the group has not been given
  pub pending : List String  -- those it has been given and has not acknowledged
  pub calls : List (BusEvent Payload)
  pub channel : List (String × Entry)  -- PUBLISH, to the channels of the tenants
  pub consumers : List String

-- What fails in `publish`, and how much of the stream goes.
pub record PublishFaults : Type 0 where
  pub xadd_fails : Bool
  pub pubsub_fails : Bool
  pub evicted : ℕ  -- how many of the waiting entries `MAXLEN ~ 10000` drops, as far as it may

-- What fails in one round of a loop; a handler may throw, and so may `XACK`, at any entry.
pub record RoundFaults : Type 0 where
  pub read_fails : Bool
  pub throws : String → Bool
  pub xack_fails : String → Bool
  pub recreate_fails : Bool

abbrev pub max_len : ℕ
max_len = 10000

-- `MAXLEN ~ 10000`: Redis drops entries from the oldest on, as many as suits it, and leaves the last
-- ten thousand, to which those that wait belong if they are no more.
unfoldable pub trim_stream : ℕ → List Entry → List Entry
trim_stream evicted es =
    drop (if leb evicted (length es - max_len) then evicted else length es - max_len) es

unfoldable pub batch_size : ℕ
batch_size = 10

-- What happens on the bus; a round is read by a consumer, whose loop is running.
pub data BusStep : Type 0 where
  published : PublishFaults → Option String → Entry → BusStep
  subscribed : Bool → String → BusStep
  reads : String → RoundFaults → BusStep
  closes : BusStep

module _ {Payload : Type 0} where
  -- `publish`, with the tenant of the payload. The id is "" where `XADD` fails.
  unfoldable pub publish :
      PublishFaults → Option String → Entry → Bus Payload → String × Bus Payload
  publish f tenant e b =
      let id = if f.xadd_fails then "" else e.id in
      let added =
        if f.xadd_fails || not b.has_group
        then b
        else record b { waiting = trim_stream f.evicted (b.waiting ++ (e ∷ [])) } in
      let said =
        if truthy tenant && not f.pubsub_fails
        then record added {
          channel = added.channel ++ ((or_else tenant "", record e { id = id }) ∷ []);
        }
        else added in
      (id, said)

  -- `XGROUP CREATE … $ MKSTREAM`; a group that is there is kept.
  unfoldable pub create_group : Bool → Bus Payload → Bus Payload
  create_group fails b =
      if fails || b.has_group then b else record b { has_group = true; waiting = []; pending = [] }

  unfoldable pub subscribe : Bool → String → Bus Payload → Bus Payload
  subscribe fails key b =
      if contains key b.consumers
      then b
      else let made = create_group fails b in record made { consumers = key ∷ made.consumers }

  unfoldable pub close : Bus Payload → Bus Payload
  close b = record b { consumers = [] }

  -- What `XREADGROUP` does to the group.
  abbrev pub take_batch : Bus Payload → Bus Payload
  take_batch b = record b {
    waiting = drop batch_size b.waiting;
    pending = b.pending ++ map (λ e. e.id) (take batch_size b.waiting);
  }

  module _ (name : String) (parse : String → Option Payload) (empty : Payload) where
    -- `obj.payload ? JSON.parse(obj.payload) : {}`; none is a thrown error.
    unfoldable pub payload_of : Option String → Option Payload
    payload_of text = if truthy text then parse (or_else text "") else some empty

    unfoldable pub event_of : Entry → Option (BusEvent Payload)
    event_of e = elim (payload_of e.payload) [
      | none ↦ none
      | some p ↦ some (record { id = e.id; kind = or_else e.kind name; payload = p })
    ]

    -- The body of the loop over the entries of a batch.
    unfoldable pub handle_entry : RoundFaults → Entry → Bus Payload → Bus Payload
    handle_entry f e b = elim (event_of e) [
      | none ↦ b
      | some event ↦ record b {
        calls = b.calls ++ (event ∷ []);
        pending =
            if f.throws e.id || f.xack_fails e.id
            then b.pending
            else keep_if (λ id. not (id == e.id)) b.pending;
      }
    ]

    unfoldable pub handle_batch : RoundFaults → List Entry → Bus Payload → Bus Payload
    handle_batch f [] b = b
    handle_batch f (e ∷ es) b = handle_batch f es (handle_entry f e b)

    -- One round of `readLoop`; without a group, the read answers NOGROUP.
    unfoldable pub read_round : RoundFaults → Bus Payload → Bus Payload
    read_round f b =
        if f.read_fails
        then b
        else if not b.has_group
        then create_group f.recreate_fails b
        else handle_batch f (take batch_size b.waiting) (take_batch b)

    unfoldable pub bus_step : BusStep → Bus Payload → Bus Payload
    bus_step (published f tenant e) b = (publish f tenant e b).1
    bus_step (subscribed fails key) b = subscribe fails key b
    bus_step (reads key f) b = if contains key b.consumers then read_round f b else b
    bus_step closes b = close b

    unfoldable pub run_steps : List BusStep → Bus Payload → Bus Payload
    run_steps [] b = b
    run_steps (s ∷ ss) b = run_steps ss (bus_step s b)
