-- ===== src/Paxos/Client.antt =====
-- ReactorThread of paxos/custom_client.py with its datagrams, and how datagramReceived of
-- paxos/messenger.py takes such a datagram apart.
pub mod Proposals
mod Tests
use krafters.Prelude.{
  ℕ, Bool, true, false, List, [], ◌∷◌, ◌++◌, Option, none, some, ◌==◌, if◌then◌else◌,
}
use krafters.Text.{Text, codes, text_eq}
use krafters.Paxos.ReplicatedValue.{Packet}
use krafters.Paxos.Node.{Node}
use krafters.Paxos.Messenger.{Address, Datagram, propose, message, datagram_received}

-- 'propose {0}'.format(self.new_value)
abbrev pub proposal : Text → Text
proposal new_value = codes "propose " ++ new_value

-- packet.split(' ', 1); `none` is the ValueError when there is no space.
unfoldable pub split_once : Text → Option (Text × Text)
split_once [] = none
split_once (c ∷ s) =
    let rest = split_once s in
    if c == b' '
    then some ([], s)
    else elim rest [ none ↦ none | some (word, text) ↦ some (c ∷ word, text) ]

-- `decode` is the search for a handler and json.loads of its arguments.
unfoldable pub read_datagram : (decode : Text → Text → Option Packet) → Text → Option Datagram
unfolding split_once text_eq
read_datagram decode packet = elim (split_once packet) [
  | none ↦ none
  | some (message_type, text) ↦
      if text_eq message_type (codes "propose")
      then some (propose text)
      else elim (decode message_type text) [ none ↦ none | some m ↦ some (message m) ]
]

-- datagramReceived on the text of the datagram; what it cannot read is printed.
unfoldable pub receive_text :
    (decode : Text → Text → Option Packet) → List (ℕ × Address) → Address → Text → Node → Node
unfolding read_datagram datagram_received
receive_text decode addrs from_addr packet self = elim (read_datagram decode packet) [
  | none ↦ self
  | some datagram ↦ datagram_received addrs from_addr datagram self
]

-- The thread of a client, with the datagrams that it has sent, the first one first.
pub record ReactorThread : Type 0 where
  pub addr : Address
  pub spin : Bool
  pub queue : List Text
  pub sent : List (Address × Text)

unfoldable pub new_thread : Address → ReactorThread
new_thread addr = record { addr = addr; spin = true; queue = []; sent = [] }

-- queue.pop(): the last item
unfoldable pub pop : List Text → Option (Text × List Text)
pop [] = none
pop (item ∷ queue) = elim (pop queue) [
  | none ↦ some (item, [])
  | some (last, rest) ↦ some (last, item ∷ rest)
]

-- What the two threads do: a call of the user's, or a round of the loop in append_from_queue.
pub data Turn : Type 0 where
  adds : Text → Turn
  stops : Turn
  loops : Turn

-- startProtocol sends the datagram as soon as the socket listens.
unfoldable pub take_item : ReactorThread → ReactorThread
unfolding pop
take_item self = elim (pop self.queue) [
  | none ↦ self
  | some (item, rest) ↦ record self {
    queue = rest;
    sent = self.sent ++ (self.addr, proposal item) ∷ [];
  }
]

unfoldable pub take_turn : Turn → ReactorThread → ReactorThread
unfolding take_item
take_turn (adds item) self = record self { queue = self.queue ++ item ∷ [] }
take_turn stops self = record self { spin = false }
take_turn loops self = if self.spin then take_item self else self

unfoldable pub take_turns : List Turn → ReactorThread → ReactorThread
unfolding take_turn
take_turns [] self = self
take_turns (t ∷ turns) self = take_turns turns (take_turn t self)
