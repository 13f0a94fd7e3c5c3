-- ===== src/Relayer/Submitter/Delivery.antt =====
-- Which message a tick of rust/agents/relayer/src/msg/serial_submitter.rs takes, and where it goes.
use ethmexico.Base.{◌≡◌, ◌∙◌, ◌⊎◌, inl, inr, true, some, List, [], ◌∷◌, ◌++◌}
use ethmexico.Base.Bytes.{Bytes}
use ethmexico.Db.Backend.{Rocks, Outcome}
use ethmexico.Db.{retrieve_leaf_processing_status}
use ethmexico.Db.Status.{status-mark}
use ethmexico.Relayer.Submitter.{SubmitMessageArgs, Chain, Submitter, fine, tick, retried}
use ethmexico.Relayer.Submitter.Tick.{queue, tick_cases}

module _ (S : Type 0) (rocks : Rocks) (keccak : Bytes → Bytes) (entity : Bytes) where
  -- The queue is what waits, then what the channel holds, then the run queue, each in its order: a
  -- message that arrives stands before the older ones of the run queue, whatever the leaf indices and
  -- the counts of retries. A tick that ends well takes the first message of the queue and keeps all
  -- others in this order. The message leaves the queue only if the database then says that its leaf
  -- is processed; otherwise it goes to the back, with one more retry counted.
  pub tick_delivers_or_keeps :
      (chain : Chain S) (s s' : Submitter S rocks keccak entity) (m : SubmitMessageArgs S)
      (rest : List (SubmitMessageArgs S))
      → queue S rocks keccak entity s ≡ m ∷ rest
      → tick S rocks keccak entity chain s ≡ (s', fine)
      → ((queue S rocks keccak entity s' ≡ rest)
          × (retrieve_leaf_processing_status rocks keccak entity m.leaf_index s'.db
              ≡ Outcome.ok (some true)))
        ⊎ (queue S rocks keccak entity s' ≡ rest ++ (retried S rocks keccak entity m ∷ []))
  tick_delivers_or_keeps chain s s' m rest q h =
      let (rx, wait, _, fate) = tick_cases S rocks keccak entity chain s s' m rest q h in
      let front : (s'.wait_queue ++ s'.rx) ++ s'.run_queue ≡ s'.run_queue =
        λ i. (wait i ++ rx i) ++ s'.run_queue in
      elim fate [
        | inl (run, marked) ↦
            inl (front ∙ run, status-mark rocks keccak entity m.leaf_index s.db s'.db marked)
        | inr run ↦ inr (front ∙ run)
      ]
