-- ===== src/Signal/Worker.antt =====
-- The worker that decrypts and handles messages: NewWorker, AddMsg and Work of
-- go/signal/client/worker.go, interleaved in any order. The channel holds one message.
pub mod Ordered
mod Tests
use netbird_minimal.Common.{Bool, Option, none, some, List, [], ◌∷◌, ◌++◌, ◌≡◌}

-- where Work stands: at its select, behind the receive of a message, or returned
pub data Phase (Enc : Type 0) : Type 0 where
  waiting : Phase Enc
  working : Enc → Phase Enc
  returned : Phase Enc

-- decryptMessage, and the handler over the rest of the client, with whether it failed
pub record WorkerEnv : Type 1 where
  pub Enc : Type 0
  pub Message : Type 0
  pub World : Type 0
  pub decrypt_message : Enc → Option Message
  pub handler : Message → World → Bool × World

module _ (env : WorkerEnv) where
  open env use {Enc, Message, World}

  -- Worker, with the messages that AddMsg put into the channel and those that the handler was given
  pub record Worker : Type 0 where
    pub encrypted_msg_pool : Option Enc
    pub phase : Phase Enc
    pub world : World
    pub added : List Enc
    pub handled : List Message

  -- NewWorker, with its Work started
  unfoldable pub new_worker : World → Worker
  new_worker w = record {
    encrypted_msg_pool = none;
    phase = waiting;
    world = w;
    added = [];
    handled = [];
  }

  -- the send of AddMsg, `none` where it blocks
  unfoldable pub add_msg : Enc → Worker → Option Worker
  add_msg m s = elim s.encrypted_msg_pool [
    | some x ↦ none
    | none ↦ some (record s { encrypted_msg_pool = some m; added = s.added ++ (m ∷ []) })
  ]

  -- the case of Work for a message; the errors are only logged
  unfoldable pub work_on : Enc → Worker → Worker
  work_on m s = elim (env.decrypt_message m) [
    | none ↦ record s { phase = waiting }
    | some d ↦ record s {
      phase = waiting;
      world = (env.handler d s.world).1;
      handled = s.handled ++ (d ∷ []);
    }
  ]

  -- A step: an AddMsg, a receive of Work, its handling of the message, or its return for a context
  -- that is done. An AddMsg whose context is done changes nothing.
  pub data Step (s : Worker) : Worker → Type 0 where
    add : (m : Enc) {t : Worker} → add_msg m s ≡ some t → Step s t
    receive :
        (m : Enc)
        → s.phase ≡ waiting
        → s.encrypted_msg_pool ≡ some m
        → Step s (record s { encrypted_msg_pool = none; phase = working m })
    work : (m : Enc) → s.phase ≡ working m → Step s (work_on m s)
    stop : s.phase ≡ waiting → Step s (record s { phase = returned })

  pub data Reach (s : Worker) : Worker → Type 0 where
    here : Reach s s
    next : {t u : Worker} → Reach s t → Step t u → Reach s u
