-- ===== src/Relayer/Submitter/Tick.antt =====
-- What a tick of rust/agents/relayer/src/msg/serial_submitter.rs does to the queues.
use ethmexico.Base.{
  ◌≡◌, refl, sym, ap, ◌∙◌, ◌⊎◌, Bool, true, false, List, [], ◌∷◌, ◌++◌, if◌then◌else◌, reverse,
  reverse-cons, append_assoc, append-nil, arith,
}
use ethmexico.Base.Bytes.{Bytes}
use ethmexico.Db.Backend.{Rocks, Outcome}
use ethmexico.Db.{mark_leaf_as_processed}
use ethmexico.Relayer.Submitter.{
  SubmitMessageArgs, Chain, Ended, fine, failing, Submitter, receive, promote, received, promoted,
  record_message_process_success, process_message, dispatch, pick, tick, retried,
}
use mathlib.Core.List.{foldl}

module _ (S : Type 0) (rocks : Rocks) (keccak : Bytes → Bytes) (entity : Bytes) where
  open rocks use {Store}

  receive-append :
      (wait rx : List (SubmitMessageArgs S)) → receive S rocks keccak entity wait rx ≡ wait ++ rx
  unfolding receive
  receive-append wait [] = sym (append-nil wait)
  receive-append wait (m ∷ rx) =
      receive-append (wait ++ (m ∷ [])) rx ∙ append_assoc wait (m ∷ []) rx

  foldl-snoc :
      (xs run : List (SubmitMessageArgs S)) (x : SubmitMessageArgs S)
      → foldl (λ queue msg. msg ∷ queue) run (xs ++ (x ∷ []))
        ≡ x ∷ foldl (λ queue msg. msg ∷ queue) run xs
  foldl-snoc [] run x = refl
  foldl-snoc (y ∷ xs) run x = foldl-snoc xs (y ∷ run) x

  promote-append :
      (wait run : List (SubmitMessageArgs S)) → promote S rocks keccak entity wait run ≡ wait ++ run
  unfolding promote
  promote-append [] run = refl
  promote-append (m ∷ wait) run =
      ap (foldl (λ queue msg. msg ∷ queue) run) (reverse-cons m wait)
      ∙ foldl-snoc (reverse wait) run m
      ∙ ap (◌∷◌ m) (promote-append wait run)

  -- The messages in the order in which the next tick sees them: those that waited, those that the
  -- channel holds, those that are ready.
  abbrev pub queue : Submitter S rocks keccak entity → List (SubmitMessageArgs S)
  queue s = (s.wait_queue ++ s.rx) ++ s.run_queue

  pub ready-queue :
      (s : Submitter S rocks keccak entity)
      → (promoted S rocks keccak entity (received S rocks keccak entity s)).run_queue ≡ queue s
  unfolding promoted received
  ready-queue s =
      promote-append _ s.run_queue
      ∙ ap (λ (w : List (SubmitMessageArgs S)). w ++ s.run_queue) (receive-append s.wait_queue s.rx)

  -- What becomes of the message that was taken: either it was marked as processed, or it stands at
  -- the back of the queue for another try.
  pub record Dispatched (m : SubmitMessageArgs S) (s s' : Submitter S rocks keccak entity)
      : Type 0 where
    pub rx_kept : s'.rx ≡ s.rx
    pub connected_kept : s'.connected ≡ s.connected
    pub wait_kept : s'.wait_queue ≡ s.wait_queue
    pub fate :
        ((s'.run_queue ≡ s.run_queue)
          × (mark_leaf_as_processed rocks keccak entity m.leaf_index s.db ≡ (Outcome.ok tt, s'.db)))
        ⊎ (s'.run_queue ≡ s.run_queue ++ (retried S rocks keccak entity m ∷ []))

  record_cases :
      (m : SubmitMessageArgs S) (s s' : Submitter S rocks keccak entity)
      → record_message_process_success S rocks keccak entity m s ≡ (s', fine)
      → Dispatched m s s'
  unfolding record_message_process_success
  record_cases m s s' h = ground arith

  dispatch_cases :
      (chain : Chain S) (m : SubmitMessageArgs S) (s s' : Submitter S rocks keccak entity)
      → dispatch S rocks keccak entity chain m s ≡ (s', fine)
      → Dispatched m s s'
  unfolding dispatch process_message record_message_process_success
  dispatch_cases chain m s s' h = ground arith

  abbrev ready : Submitter S rocks keccak entity → Submitter S rocks keccak entity
  ready s = promoted S rocks keccak entity (received S rocks keccak entity s)

  tick-pick :
      (chain : Chain S) (s s' : Submitter S rocks keccak entity) (q : List (SubmitMessageArgs S))
      → queue s ≡ q
      → tick S rocks keccak entity chain s ≡ (s', fine)
      → pick S rocks keccak entity chain q (ready s) ≡ (s', fine)
  unfolding tick
  tick-pick chain s s' q e h = rw (← e, ← ready-queue s) (go s.connected h)
    where
      go :
          (b : Bool)
          → (if b
              then pick S rocks keccak entity chain (ready s).run_queue (ready s)
              else (received S rocks keccak entity s, failing))
            ≡ (s', fine)
          → pick S rocks keccak entity chain (ready s).run_queue (ready s) ≡ (s', fine)
      go true r = r
      go false r = cc

  -- A tick that ends well on a non-empty queue dispatches its first message.
  pub tick_cases :
      (chain : Chain S) (s s' : Submitter S rocks keccak entity) (m : SubmitMessageArgs S)
      (rest : List (SubmitMessageArgs S))
      → queue s ≡ m ∷ rest
      → tick S rocks keccak entity chain s ≡ (s', fine)
      → (s'.rx ≡ [])
        × (s'.wait_queue ≡ [])
        × (s'.connected ≡ s.connected)
        × (((s'.run_queue ≡ rest)
              × (mark_leaf_as_processed rocks keccak entity m.leaf_index s.db
                  ≡ (Outcome.ok tt, s'.db)))
            ⊎ (s'.run_queue ≡ rest ++ (retried S rocks keccak entity m ∷ [])))
  unfolding pick promoted received
  tick_cases chain s s' m rest q h =
      let d =
        dispatch_cases chain m (record (ready s) { run_queue = rest }) s'
          (tick-pick chain s s' (m ∷ rest) q h) in
      (d.rx_kept, d.wait_kept, d.connected_kept, d.fate)

  -- With nothing to deliver, a tick does nothing to the store.
  pub tick_idle :
      (chain : Chain S) (s s' : Submitter S rocks keccak entity)
      → queue s ≡ []
      → tick S rocks keccak entity chain s ≡ (s', fine)
      → (queue s' ≡ []) × (s'.db ≡ s.db)
  unfolding pick promoted received
  tick_idle chain s s' q h =
      let same : ready s ≡ s' =
        ap (λ (r : Submitter S rocks keccak entity × Ended). r.0) (tick-pick chain s s' [] q h) in
      rw (← same) (ready-queue s ∙ q, refl)
