-- ===== src/Paxos/Client/Proposals.antt =====
-- The order in which a client's values reach a node, and which of them it proposes.
use krafters.Prelude.{ℕ, ◌≡◌, List, [], ◌∷◌, ◌++◌, Option, some}
use krafters.Text.{Text}
use krafters.Paxos.ReplicatedValue.{Packet}
use krafters.Paxos.Node.{Node, propose_update}
use krafters.Paxos.Messenger.{Address}
use krafters.Paxos.Client.{proposal, receive_text, Turn, adds, loops}

-- The user adds the items, and the loop makes as many rounds.
abbrev pub add_and_loop : List Text → List Turn
add_and_loop [] = []
add_and_loop (item ∷ items) = adds item ∷ (add_and_loop items ++ loops ∷ [])

abbrev propose_last_first : List Text → Node → Node
propose_last_first [] n = n
propose_last_first (item ∷ items) n = propose_update item (propose_last_first items n)

-- The node gets the datagrams, in the order in which they are sent.
abbrev pub receive_all :
    (Text → Text → Option Packet)
    → List (ℕ × Address)
    → Address
    → List (Address × Text)
    → Node
    → Node
receive_all decode addrs from_addr [] n = n
receive_all decode addrs from_addr ((to, packet) ∷ sent) n =
    receive_all decode addrs from_addr sent (receive_text decode addrs from_addr packet n)

last_first : Address → List Text → List (Address × Text)
last_first addr [] = []
last_first addr (item ∷ items) = last_first addr items ++ (addr, proposal item) ∷ []

-- What becomes of a node behind a number of proposals: the value that it proposes, and the number of
-- the id that it prepares with.
record Proposing (value : Text) (number : ℕ) (n : Node) : Type 0 where
  proposed : n.base.paxos.proposer.proposed_value ≡ some value
  prepared : n.base.paxos.proposer.proposal_id.number ≡ number
  highest : n.base.paxos.proposer.highest_proposal_id.number ≡ number
