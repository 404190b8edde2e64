-- ===== src/Paxos/Network.antt =====
-- Instances of paxos/composable_paxos.py on a network that loses, repeats and reorders messages.
pub mod Acceptors
pub mod Members
pub mod Proposers
pub mod Leaders
pub mod Gathering
pub mod Sites
pub mod Replies
pub mod Acts
pub mod Turns
pub mod Agreement
pub mod Progress
pub mod Liveness
pub mod Resolves
mod Tests
use krafters.Prelude.{
  ℕ, Bool, true, List, [], ◌∷◌, ◌++◌, Option, none, some, ◌≡◌, ◌==◌, if◌then◌else◌,
}
use krafters.Text.{Text}
use krafters.Sets.{contains}
use krafters.Paxos.Messages.{
  Among, Promise, Accept, Accepted, Message, promise, accept, accepted, Reply, returns,
}
use krafters.Paxos.Proposer.{prepare_next, propose_value}
use krafters.Paxos.Instance.{Instance, paxos_instance, receive}

-- A call of an instance: a message arrives, or its user calls `prepare` or `propose_value`.
pub data Action : Type 0 where
  hears : Message → Action
  prepares : Action
  proposes : Text → Action

unfoldable pub act : Action → Instance → Reply × Instance
unfolding receive prepare_next propose_value
act (hears msg) self = receive msg self
act prepares self =
    let (reply, proposer) = prepare_next self.proposer in
    (reply, record self { proposer = proposer })
act (proposes value) self =
    let (reply, proposer) = propose_value value self.proposer in
    (reply, record self { proposer = proposer })

-- A node: its instance with all messages that it has sent, the last one first.
pub record Site : Type 0 where
  pub node : Instance
  pub log : List Message

unfoldable pub sent_of : Reply → List Message
sent_of (returns msg) = msg ∷ []
sent_of _ = []

unfoldable pub moved : Reply × Instance → List Message → Site
unfolding sent_of
moved (reply, self) log = record { node = self; log = sent_of reply ++ log }

abbrev pub System : Type 0
System = ℕ → Site

unfoldable pub initial : ℕ → System
unfolding paxos_instance
initial quorum u = record { node = paxos_instance u quorum none none none; log = [] }

-- One node acts.
unfoldable pub turn : ℕ → Action → System → System
unfolding act moved
turn u action s w = if w == u then moved (act action (s u).node) (s u).log else s w

-- A message that some member has sent may arrive at any time, and again.
abbrev pub Arrives : List ℕ → System → Action → Type 0
Arrives members s (hears msg) = (w : ℕ) × (contains w members ≡ true) × Among msg (s w).log
Arrives members s _ = Unit {0}

-- The states of a network of members.
pub data Reachable (members : List ℕ) (quorum : ℕ) : System → Type 0 where
  begins : Reachable members quorum (initial quorum)
  acts :
      (u : ℕ) (action : Action) (s : System)
      → contains u members ≡ true
      → Arrives members s action
      → Reachable members quorum s
      → Reachable members quorum (turn u action s)

-- What a node has sent, by the class of the message.
unfoldable pub joined : {A : Type 0} → Option A → List A → List A
joined none xs = xs
joined (some x) xs = x ∷ xs

unfoldable pub only : {A : Type 0} → (Message → Option A) → List Message → List A
unfolding joined
only f [] = []
only f (m ∷ log) = joined (f m) (only f log)

unfoldable pub as_promise : Message → Option Promise
as_promise (promise m) = some m
as_promise _ = none

unfoldable pub as_accept : Message → Option Accept
as_accept (accept m) = some m
as_accept _ = none

unfoldable pub as_accepted : Message → Option Accepted
as_accepted (accepted m) = some m
as_accepted _ = none

unfoldable pub promises : List Message → List Promise
unfolding only as_promise
promises log = only as_promise log

unfoldable pub accepts : List Message → List Accept
unfolding only as_accept
accepts log = only as_accept log

unfoldable pub accepteds : List Message → List Accepted
unfolding only as_accepted
accepteds log = only as_accepted log
