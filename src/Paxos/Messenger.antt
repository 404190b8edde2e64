-- ===== src/Paxos/Messenger.antt =====
-- Messenger of paxos/messenger.py, and what the reactor does to a node over time. A datagram is taken
-- behind the decoding of its JSON text.
pub mod Addresses
use krafters.Prelude.{ℕ, Bool, ◌&&◌, List, [], ◌∷◌, Option, none, some, ◌==◌, if◌then◌else◌}
use krafters.Text.{Text, text_eq}
use krafters.Paxos.ReplicatedValue.{
  Packet, send_nack, send_prepare, send_promise, send_accept, send_accepted, send_sync_request,
  send_catchup,
}
use krafters.Paxos.Node.{
  Node, propose_update, receive_prepare, receive_accept, receive_nack, receive_promise,
  receive_accepted, receive_sync_request, receive_catchup, drive_to_resolution, resend_now, sync,
}

-- An address is an IP address with a port.
abbrev pub Address : Type 0
Address = Text × ℕ

unfoldable pub same_address : Address → Address → Bool
unfolding text_eq
same_address a b = text_eq a.0 b.0 && a.1 == b.1

-- self.addrs[v] = k for each peer: the name of an address, where the last one stays.
unfoldable pub uid_of : Address → List (ℕ × Address) → Option ℕ
unfolding same_address
uid_of a [] = none
uid_of a ((uid, b) ∷ rest) = elim (uid_of a rest) [
  | some u ↦ some u
  | none ↦ if same_address b a then some uid else none
]

-- self.addrs[to_uid]
unfoldable pub address_of : ℕ → List (ℕ × Address) → Option Address
address_of uid [] = none
address_of uid ((u, b) ∷ rest) = elim (address_of uid rest) [
  | some a ↦ some a
  | none ↦ if u == uid then some b else none
]

-- What a datagram says: a client's value, or a packet, whose first argument is not read.
pub data Datagram : Type 0 where
  propose : Text → Datagram
  message : Packet → Datagram

-- getattr(self.replicated_val, 'receive_' + message_type) with the arguments of the message
unfoldable pub handle : ℕ → Packet → Node → Node
unfolding receive_prepare receive_accept receive_nack receive_promise receive_accepted
    receive_sync_request receive_catchup
handle from_uid (send_nack _ n id promised) self = receive_nack from_uid n id promised self
handle from_uid (send_prepare _ n id) self = receive_prepare from_uid n id self
handle from_uid (send_promise _ n id last value) self =
    receive_promise from_uid n id last value self
handle from_uid (send_accept _ n id value) self = receive_accept from_uid n id value self
handle from_uid (send_accepted _ n id value) self = receive_accepted from_uid n id value self
handle from_uid (send_sync_request _ n) self = receive_sync_request from_uid n self
handle from_uid (send_catchup _ n value) self = receive_catchup from_uid n value self

-- datagramReceived: an address that no peer has is a KeyError, which is printed.
unfoldable pub datagram_received : List (ℕ × Address) → Address → Datagram → Node → Node
unfolding uid_of handle propose_update
datagram_received addrs from_addr (propose value) self = propose_update value self
datagram_received addrs from_addr (message packet) self = elim (uid_of from_addr addrs) [
  | none ↦ self
  | some from_uid ↦ handle from_uid packet self
]

-- What the reactor and the listener of paxos/custom_server.py call.
pub data Event : Type 0 where
  receives : Address → Datagram → Event
  paxos_append : Text → Event
  delayed_drive_fires : Event
  retransmit_task_fires : Event
  sync_fires : ℕ → Event

-- self.delayed_drive is active until it fires.
unfoldable pub fire_delayed_drive : Node → Node
unfolding drive_to_resolution
fire_delayed_drive self = elim self.delayed_drive [
  | none ↦ self
  | some d ↦ drive_to_resolution (record self { delayed_drive = none })
]

unfoldable pub fire_retransmit_task : Node → Node
unfolding resend_now
fire_retransmit_task self = elim self.retransmit_task [
  | none ↦ self
  | some task ↦ record self { base = resend_now task.resend self.base }
]

unfoldable pub step : List (ℕ × Address) → Event → Node → Node
unfolding datagram_received propose_update fire_delayed_drive fire_retransmit_task sync
step addrs (receives from_addr datagram) self = datagram_received addrs from_addr datagram self
step addrs (paxos_append value) self = propose_update value self
step addrs delayed_drive_fires self = fire_delayed_drive self
step addrs retransmit_task_fires self = fire_retransmit_task self
step addrs (sync_fires peer) self = sync peer self

unfoldable pub run : List (ℕ × Address) → List Event → Node → Node
unfolding step
run addrs [] self = self
run addrs (e ∷ events) self = run addrs events (step addrs e self)
