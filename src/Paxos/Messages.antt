-- ===== src/Paxos/Messages.antt =====
-- Proposal ids and messages of paxos/composable_paxos.py. Ids of nodes are numbers, as in the
-- configuration that paxos/custom_server.py reads.
pub mod Order
use krafters.Prelude.{
  List, [], ◌∷◌, ◌≡◌, ◌⊎◌, ℕ, ◌≡◌, refl, ap, ◌∙◌, Bool, true, false, not, ◌&&◌, ◌||◌, Option, none,
  some, ltb, ◌==◌, arith,
}
use krafters.Text.{Text}

-- ProposalID = collections.namedtuple('ProposalID', ['number', 'uid'])
pub record ProposalId : Type 0 where
  pub number : ℕ
  pub uid : ℕ

-- The order of tuples.
unfoldable pub before : ProposalId → ProposalId → Bool
before a b = ltb a.number b.number || a.number == b.number && ltb a.uid b.uid

unfoldable pub same_id : ProposalId → ProposalId → Bool
same_id a b = a.number == b.number && a.uid == b.uid

-- In Python 2, None is below every tuple.
unfoldable pub before_opt : Option ProposalId → Option ProposalId → Bool
unfolding before
before_opt a none = false
before_opt none (some b) = true
before_opt (some a) (some b) = before a b

pub record Prepare : Type 0 where
  pub from_uid : ℕ
  pub proposal_id : ProposalId

pub record Nack : Type 0 where
  pub from_uid : ℕ
  pub proposer_uid : ℕ
  pub proposal_id : ProposalId
  pub promised_proposal_id : Option ProposalId

pub record Promise : Type 0 where
  pub from_uid : ℕ
  pub proposer_uid : ℕ
  pub proposal_id : ProposalId
  pub last_accepted_id : Option ProposalId
  pub last_accepted_value : Option Text

pub record Accept : Type 0 where
  pub from_uid : ℕ
  pub proposal_id : ProposalId
  pub proposal_value : Text

pub record Accepted : Type 0 where
  pub from_uid : ℕ
  pub proposal_id : ProposalId
  pub proposal_value : Text

pub record Resolution : Type 0 where
  pub from_uid : ℕ
  pub value : Text

-- A PaxosMessage, by its class.
pub data Message : Type 0 where
  prepare : Prepare → Message
  nack : Nack → Message
  promise : Promise → Message
  accept : Accept → Message
  accepted : Accepted → Message
  resolution : Resolution → Message

-- What a handler does: it returns a message or None, or it raises.
pub data Reply : Type 0 where
  returns : Message → Reply
  nothing : Reply
  raises : Reply

-- An element of a list.
abbrev pub Among : {A : Type 0} → A → List A → Type 0
Among a [] = ⊥
Among a (x ∷ xs) = (x ≡ a) ⊎ Among a xs
