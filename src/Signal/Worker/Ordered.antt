-- ===== src/Signal/Worker/Ordered.antt =====
-- No message that AddMsg of go/signal/client/worker.go puts into the channel is lost, handled twice or
-- out of order, and Work gets to all of them.
use mathlib.Core.List.{append-nil, append_assoc}
use netbird_minimal.Common.{
  ◌≡◌, ◌≢◌, refl, sym, ap, ◌∙◌, Option, none, some, List, [], ◌∷◌, ◌++◌, arith, Option-cases, inl,
  inr, is_some, true,
}
use netbird_minimal.Signal.Worker.{
  Phase, waiting, working, returned, WorkerEnv, Worker, new_worker, add_msg, work_on, Step, add,
  receive, work, stop, Reach, here, next,
}

module _ (env : WorkerEnv) where
  open env use {Enc, Message, World}

  -- What the messages decrypt to, without those that do not.
  unfoldable pub decrypted : List Enc → List Message
  decrypted [] = []
  decrypted (m ∷ ms) = elim (env.decrypt_message m) [
    | none ↦ decrypted ms
    | some d ↦ d ∷ decrypted ms
  ]

  decrypted-append : (xs ys : List Enc) → decrypted (xs ++ ys) ≡ decrypted xs ++ decrypted ys
  unfolding decrypted
  decrypted-append [] ys = refl
  decrypted-append (m ∷ ms) ys = ground (arith, decrypted-append ms ys)

  -- The messages that are neither handled nor given up: that of Work, and that in the channel.
  abbrev held : Phase Enc → List Enc
  held (working m) = m ∷ []
  held _ = []

  abbrev pooled : Option Enc → List Enc
  pooled none = []
  pooled (some m) = m ∷ []

  -- The handler was given what was added, in that order, up to the messages on their way.
  abbrev pub IsOrdered : Worker env → Type 0
  IsOrdered s =
      s.handled ++ decrypted (held s.phase ++ pooled s.encrypted_msg_pool) ≡ decrypted s.added

  add-IsOrdered :
      (m : Enc) (s : Worker env) {t : Worker env}
      → add_msg env m s ≡ some t
      → IsOrdered s
      → IsOrdered t
  add-IsOrdered m s {t} q h = elim (Option-cases s.encrypted_msg_pool) [
    | inr (x, p) ↦ absurd (unfold add_msg in ground arith)
    | inl p ↦
        let i : (s.handled ++ decrypted (held s.phase ++ [])) ≡ decrypted s.added =
          ap (λ o. s.handled ++ decrypted (held s.phase ++ pooled o)) (sym p) ∙ h in
        let grown : s.handled ++ decrypted (held s.phase ++ (m ∷ []))
            ≡ decrypted (s.added ++ (m ∷ [])) =
          ap (λ xs. s.handled ++ xs) (decrypted-append (held s.phase) (m ∷ []))
          ∙ sym (append_assoc s.handled (decrypted (held s.phase)) (decrypted (m ∷ [])))
          ∙ ap (λ xs. (s.handled ++ decrypted xs) ++ decrypted (m ∷ []))
              (sym (append-nil (held s.phase)))
          ∙ ap (λ xs. xs ++ decrypted (m ∷ [])) i
          ∙ sym (decrypted-append s.added (m ∷ [])) in
        unfold add_msg in ground (arith, q, p, grown)
  ]

  work-IsOrdered :
      (m : Enc) (s : Worker env) → s.phase ≡ working m → IsOrdered s → IsOrdered (work_on env m s)
  work-IsOrdered m s p h = split (env.decrypt_message m) refl
    where
      front :
          s.handled ++ (decrypted (m ∷ []) ++ decrypted (pooled s.encrypted_msg_pool))
          ≡ decrypted s.added
      front =
          ap (λ xs. s.handled ++ xs) (sym (decrypted-append (m ∷ []) (pooled s.encrypted_msg_pool)))
          ∙ ap (λ q. s.handled ++ decrypted (held q ++ pooled s.encrypted_msg_pool)) (sym p)
          ∙ h

      split : (o : Option Message) → env.decrypt_message m ≡ o → IsOrdered (work_on env m s)
      split none q = unfold work_on in unfold decrypted in ground (arith, q, front)
      split (some d) q =
          let ready : s.handled ++ (d ∷ decrypted (pooled s.encrypted_msg_pool))
              ≡ decrypted s.added =
            unfold decrypted in ground (arith, q, front) in
          let moved =
            append_assoc s.handled (d ∷ []) (decrypted (pooled s.encrypted_msg_pool)) ∙ ready in
          unfold work_on in ground (arith, q, moved)

  Step-IsOrdered : {s t : Worker env} → Step env s t → IsOrdered s → IsOrdered t
  Step-IsOrdered {s} {t} (add m q) h = add-IsOrdered m s q h
  Step-IsOrdered {s} (receive m p q) h =
      ap (λ o. s.handled ++ decrypted (held waiting ++ pooled o)) (sym q)
      ∙ ap (λ x. s.handled ++ decrypted (held x ++ pooled s.encrypted_msg_pool)) (sym p)
      ∙ h
  Step-IsOrdered {s} (work m p) h = work-IsOrdered m s p h
  Step-IsOrdered {s} (stop p) h =
      ap (λ q. s.handled ++ decrypted (held q ++ pooled s.encrypted_msg_pool)) (sym p) ∙ h

  -- In every run of the worker the handler is given exactly the messages that were put into the
  -- channel and decrypt, in their order and each once, but for those still on their way.
  pub Reach-IsOrdered : (w : World) {s : Worker env} → Reach env (new_worker env w) s → IsOrdered s
  Reach-IsOrdered w here = unfold new_worker in unfold decrypted in refl
  Reach-IsOrdered w (next r st) = Step-IsOrdered st (Reach-IsOrdered w r)

  -- A run of steps of Work alone that ends at the select with an empty channel.
  record Drained (s : Worker env) : Type 0 where
    last : Worker env
    run : Reach env s last
    free : last.encrypted_msg_pool ≡ none
    at_select : last.phase ≡ waiting
    same : last.added ≡ s.added

  work_on-keeps :
      (m : Enc) (s : Worker env)
      → ((work_on env m s).encrypted_msg_pool ≡ s.encrypted_msg_pool)
        × ((work_on env m s).phase ≡ waiting)
        × ((work_on env m s).added ≡ s.added)
  unfolding work_on
  work_on-keeps m s = elim (Option-cases (env.decrypt_message m)) [
    | inl e ↦ (ground arith, ground arith, ground arith)
    | inr (d, e) ↦ (ground arith, ground arith, ground arith)
  ]

  -- Steps in front of a run.
  Reach-append : {s t u : Worker env} → Reach env s t → Reach env t u → Reach env s u
  Reach-append r here = r
  Reach-append r (next q st) = next (Reach-append r q) st

  waiting-Drained : (s : Worker env) → s.phase ≡ waiting → Drained s
  waiting-Drained s p = elim (Option-cases s.encrypted_msg_pool) [
    | inl e ↦ record { last = s; run = here; free = e; at_select = p; same = refl }
    | inr (m, e) ↦
        let s1 : Worker env = record s { encrypted_msg_pool = none; phase = working m } in
        let (a, b, c) = work_on-keeps m s1 in
        record {
          last = work_on env m s1;
          run = next (next here (receive m p e)) (work m refl);
          free = a;
          at_select = b;
          same = c;
        }
  ]

  phase-Drained : (s : Worker env) (p : Phase Enc) → s.phase ≡ p → p ≢ returned → Drained s
  phase-Drained s waiting q n = waiting-Drained s q
  phase-Drained s (working m) q n =
      let (a, b, c) = work_on-keeps m s in
      let d = waiting-Drained (work_on env m s) b in
      record {
        last = d.last;
        run = Reach-append (next here (work m q)) d.run;
        free = d.free;
        at_select = d.at_select;
        same = d.same ∙ c;
      }
  phase-Drained s returned q n = absurd (n refl)

  -- Every run in which Work has not returned can go on, without a further message, to a state in
  -- which the handler was given all messages that were added and decrypt, and the channel takes the
  -- next one.
  pub Reach-drains :
      (w : World) (s : Worker env)
      → Reach env (new_worker env w) s
      → s.phase ≢ returned
      → (t : Worker env) × Reach env s t
        × (t.added ≡ s.added)
        × (t.handled ≡ decrypted s.added)
        × ((m : Enc) → is_some (add_msg env m t) ≡ true)
  Reach-drains w s r n =
      let d = phase-Drained s s.phase refl n in
      let t = d.last in
      let nothing : [] ≡ decrypted [] = unfold decrypted in refl in
      (
        t,
        d.run,
        d.same,
        sym (append-nil t.handled)
            ∙ ap (λ xs. t.handled ++ xs) nothing
            ∙ ap (λ q. t.handled ++ decrypted (held q ++ [])) (sym d.at_select)
            ∙ ap (λ o. t.handled ++ decrypted (held t.phase ++ pooled o)) (sym d.free)
            ∙ Reach-IsOrdered w (Reach-append r d.run)
            ∙ ap decrypted d.same,
        λ m. unfold add_msg in ground (arith, d.free),
      )
