-- ===== src/Bls/Keygen/Order.antt =====
-- POC/bls.cpp, lines 70 to 138: the order of the communications of dstb_keygen at each of n parties.
-- To send a message to all others is one communication, and to receive it from all others is one. A
-- party does its next communication at any time, but a receipt waits for the messages of all others;
-- the connections hold what has been sent and not yet received.
pub mod Laws
use proof_of_custody.Prelude.{
  ℕ, zero, suc, ◌<◌, ◌≡◌, Bool, true, false, ◌&&◌, ◌||◌, none, some, List, [], ◌∷◌, get_elem?, ltb,
  ◌==◌, if◌then◌else◌,
}

pub data Message : Type 0 where
  comms opens shares aux : Message

pub data Act : Type 0 where
  send receive : Message → Act

-- The communications of a party, in the order of the source.
unfoldable pub program : List Act
program =
    send comms
    ∷ receive comms
    ∷ send opens
    ∷ receive opens
    ∷ send shares
    ∷ receive shares
    ∷ send aux
    ∷ receive aux
    ∷ []

-- where a message is sent in the program
unfoldable pub position : Message → ℕ
position comms = 0
position opens = 2
position shares = 4
position aux = 6

-- A party that has done this number of communications has sent the message.
unfoldable pub has_sent : Message → ℕ → Bool
has_sent m done = ltb (position m) done

-- All parties from 0 to n - 1 other than i have sent the message.
unfoldable pub others_sent : (ℕ → ℕ) → Message → ℕ → ℕ → Bool
others_sent done m i zero = true
others_sent done m i (suc n) = ((n == i) || has_sent m (done n)) && others_sent done m i n

-- Whether the party i can do its next communication, when each has done `done` of them.
unfoldable pub ready : ℕ → (ℕ → ℕ) → ℕ → Bool
ready n done i = elim (get_elem? program (done i)) [
  | none ↦ false
  | some (send m) ↦ true
  | some (receive m) ↦ others_sent done m i n
]

unfoldable pub advance : (ℕ → ℕ) → ℕ → ℕ → ℕ
advance done i j = if j == i then suc (done j) else done j

-- One party does its next communication.
pub data Step (n : ℕ) : (ℕ → ℕ) → (ℕ → ℕ) → Type 0 where
  communicate :
      {done : ℕ → ℕ} (i : ℕ) → i < n → ready n done i ≡ true → Step n done (advance done i)

-- What the parties can have done after any interleaving.
pub data Reachable (n : ℕ) : (ℕ → ℕ) → Type 0 where
  start : Reachable n (λ i. 0)
  step : {done next : ℕ → ℕ} → Reachable n done → Step n done next → Reachable n next
