-- ===== src/Signal/Worker/Tests.antt =====
-- A worker that is given two messages, of which the first is being handled.
use netbird_minimal.Common.{
  ℕ, zero, suc, ◌≡◌, ◌≢◌, refl, true, false, is_some, none, some, [], ◌∷◌, arith,
}
use netbird_minimal.Signal.Worker.{
  working, returned, WorkerEnv, Worker, new_worker, add_msg, work_on, add, receive, Reach, here,
  next,
}
use netbird_minimal.Signal.Worker.Ordered.{decrypted, IsOrdered, Reach-IsOrdered, Reach-drains}

-- Zero does not decrypt; the handler counts.
abbrev counting : WorkerEnv
counting = record {
  Enc = ℕ;
  Message = ℕ;
  World = ℕ;
  decrypt_message = λ m. elim m [ zero ↦ none | suc n ↦ some n ];
  handler = λ d w. (false, suc w);
}

abbrev busy : Worker counting
busy = record {
  encrypted_msg_pool = some 7;
  phase = working 5;
  world = 0;
  added = 5 ∷ 7 ∷ [];
  handled = [];
}

to_busy : Reach counting (new_worker counting 0) busy
unfolding new_worker add_msg
to_busy = next (next (next here (add 5 refl)) (receive 5 refl refl)) (add 7 refl)

Reach-IsOrdered_example : IsOrdered counting busy
Reach-IsOrdered_example = Reach-IsOrdered counting 0 to_busy

is_busy : busy.phase ≢ returned
is_busy h = ground arith

Reach-drains_example :
    (t : Worker counting) × Reach counting busy t
    × (t.added ≡ 5 ∷ 7 ∷ [])
    × (t.handled ≡ decrypted counting (5 ∷ 7 ∷ []))
    × ((m : ℕ) → is_some (add_msg counting m t) ≡ true)
Reach-drains_example = Reach-drains counting 0 busy to_busy is_busy

-- The first message is given to the handler.
handles_one : (work_on counting 5 busy).handled ≡ 4 ∷ []
unfolding work_on
handles_one = refl

-- A second message blocks.
blocks : add_msg counting 9 busy ≡ none
unfolding add_msg
blocks = refl
