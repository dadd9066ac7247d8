-- ===== src/Chain.antt =====
-- src/storage-codec.hpp, class ChainTracker: the encode side of one chain of packets; and what
-- src/codec-pipeline.cpp does with it when a packet of the tracked chain comes out of the encoder.
-- A packet that is the raw input is stored outside any chain and is not modelled here.
pub mod Linked
mod Tests
use obs_trigglow_dynamic_del.Prelude.{
  ℕ, Bool, true, false, not, ◌&&◌, ◌||◌, List, [], ◌∷◌, add_u64, if◌then◌else◌,
}

-- The fields of ChainTracker; kNoChain is 0.
pub record Tracker : Type 0 where
  pub chain : ℕ
  pub next_seq : ℕ
  pub want_key : Bool
  pub broken : Bool

abbrev pub new_tracker : Tracker
new_tracker = record { chain = 0; next_seq = 0; want_key = true; broken = false }

-- Start.
pub start : Tracker → ℕ → Tracker
start t chain = record { chain = chain; next_seq = 0; want_key = true; broken = false }

-- CommitSend.
pub commit_send : Tracker → Bool → Tracker
commit_send t forced_key = record t {
  next_seq = add_u64 t.next_seq 1;
  want_key = if forced_key then false else t.want_key;
}

-- ShouldStore.
pub should_store : Tracker → Bool → Bool
should_store t key = not t.broken || key

-- OnStored.
pub on_stored : Tracker → Bool → Tracker
on_stored t key = record t { broken = if key then false else t.broken }

-- OnLost.
pub on_lost : Tracker → Tracker
on_lost t = record t { broken = true; want_key = true }

-- RequestKey.
pub request_key : Tracker → Tracker
request_key t = record t { want_key = true }

-- A packet out of the encoder: whether it is a key, whether its bytes are usable, and what the arena
-- and the ring will say to it.
pub record Packet : Type 0 where
  pub key : Bool
  pub usable : Bool
  pub has_room : Bool
  pub publishes : Bool

-- The pipeline's decision on a tracked packet: whether it ends stored, and the tracker.
unfoldable pub receive : Tracker → Packet → Bool × Tracker
unfolding should_store on_stored on_lost
receive t packet =
    if not packet.usable
    then (false, on_lost t)
    else if not (should_store t packet.key)
    then (false, t)
    else if not packet.has_room
    then (false, on_lost t)
    else if not packet.publishes
    then (false, on_lost t)
    else (true, on_stored t packet.key)

-- What happens on the encode side of a chain, in order.
pub data Event : Type 0 where
  sends : (forced_key : Bool) → Event
  fails : Event
  receives : Packet → Event

-- What became of the packets of the chain: key and stored, the newest first.
pub record Fate : Type 0 where
  pub key : Bool
  pub stored : Bool

abbrev pub Session : Type 0
Session = Tracker × List Fate

pub step : Session → Event → Session
unfolding commit_send request_key receive
step (t, fates) (sends forced_key) = (commit_send t forced_key, fates)
step (t, fates) fails = (request_key t, fates)
step (t, fates) (receives packet) =
    let (stored, after) = receive t packet in
    (after, record { key = packet.key; stored = stored } ∷ fates)

pub run : Session → List Event → Session
run s [] = s
run s (e ∷ es) = run (step s e) es
