-- ===== src/Relayer/Submitter/Progress.antt =====
-- The work loop of rust/agents/relayer/src/msg/serial_submitter.rs, over several ticks.
use ethmexico.Base.{
  ℕ, suc, ◌+◌, ◌<◌, ◌≡◌, ◌≢◌, refl, sym, ap, ◌∙◌, ◌⊎◌, true, inl, inr, some, List, [], ◌∷◌, ◌++◌,
  length, length-append, append_assoc, All, arith,
}
use ethmexico.Base.Bytes.{Bytes, H256}
use ethmexico.Types.{to_leaf}
use ethmexico.Db.Backend.{Rocks, Outcome}
use ethmexico.Db.{mark_leaf_as_processed, retrieve_leaf_processing_status}
use ethmexico.Relayer.Submitter.{
  SubmitMessageArgs, Chain, Answer, answer, failure, MessageStatus, processed, unprocessed,
  Submitter, Ended, fine, failing, tick, pick, dispatch, record_message_process_success,
  process_message, or_requeue, recorded, retried,
}
use ethmexico.Relayer.Submitter.Tick.{queue, tick_cases}
use ethmexico.Relayer.Submitter.Delivery.{tick_delivers_or_keeps}

module _ (S : Type 0) (rocks : Rocks) (keccak : Bytes → Bytes) (entity : Bytes) where
  -- What the channel gets from the processor before a tick, and what the chain answers during it.
  pub record Turn : Type 0 where
    pub arrivals : List (SubmitMessageArgs S)
    pub chain : Chain S

  abbrev pub arriving :
      List (SubmitMessageArgs S) → Submitter S rocks keccak entity → Submitter S rocks keccak entity
  arriving msgs s = record s { rx = s.rx ++ msgs }

  abbrev pub turn_tick :
      Turn → Submitter S rocks keccak entity → Submitter S rocks keccak entity × Ended
  turn_tick t s = tick S rocks keccak entity t.chain (arriving t.arrivals s)

  abbrev next_tick :
      (Submitter S rocks keccak entity → Submitter S rocks keccak entity × Ended)
      → Submitter S rocks keccak entity × Ended
      → Submitter S rocks keccak entity × Ended
  next_tick continue (s, fine) = continue s
  next_tick continue (s, failing) = (s, failing)

  -- The work loop: ticks until one fails, over the turns.
  unfoldable pub work_loop :
      List Turn → Submitter S rocks keccak entity → Submitter S rocks keccak entity × Ended
  work_loop [] s = (s, fine)
  work_loop (t ∷ ts) s = next_tick (work_loop ts) (turn_tick t s)

  unfoldable pub arrived : List Turn → ℕ
  arrived [] = 0
  arrived (t ∷ ts) = length t.arrivals + arrived ts

  tick_behind :
      (chain : Chain S) (s s' : Submitter S rocks keccak entity) (x m : SubmitMessageArgs S)
      (front back : List (SubmitMessageArgs S))
      → queue S rocks keccak entity s ≡ (x ∷ front) ++ (m ∷ back)
      → tick S rocks keccak entity chain s ≡ (s', fine)
      → (back' : List (SubmitMessageArgs S)) × (queue S rocks keccak entity s'
          ≡ front ++ (m ∷ back'))
  tick_behind chain s s' x m front back q h =
      elim (tick_delivers_or_keeps S rocks keccak entity chain s s' x (front ++ (m ∷ back)) q h) [
        | inl (e, _) ↦ (back, e)
        | inr e ↦ (
          back ++ (retried S rocks keccak entity x ∷ []),
          e ∙ append_assoc front (m ∷ back) (retried S rocks keccak entity x ∷ []),
        )
      ]

  -- What lets every tick end well: the sender of the channel lives, the inbox answers, and the
  -- database takes writes. Whether the chain then processes a message is left open.
  pub record Answers (chain : Chain S) : Type 0 where
    pub status_known : (leaf : H256) → chain.message_status leaf ≢ failure
    pub writable :
        (leaf_index : ℕ) (db : rocks.Store)
        → (db' : rocks.Store) × (mark_leaf_as_processed rocks keccak entity leaf_index db
            ≡ (Outcome.ok tt, db'))

  record_fine :
      (chain : Chain S) (m : SubmitMessageArgs S) (s : Submitter S rocks keccak entity)
      → Answers chain
      → (s' : Submitter S rocks keccak entity) × (record_message_process_success S rocks keccak
            entity m s
          ≡ (s', fine))
  unfolding record_message_process_success
  record_fine chain m s a =
      let (db, e) = a.writable m.leaf_index s.db in
      (record s { db = db; metrics = recorded S rocks keccak entity m s.metrics }, rw e refl)

  fine_or_requeued :
      (m : SubmitMessageArgs S) (r : Submitter S rocks keccak entity × Ended)
      → (s' : Submitter S rocks keccak entity) × (or_requeue S rocks keccak entity m r ≡ (s', fine))
  fine_or_requeued m (s, fine) = (s, refl)
  fine_or_requeued m (s, failing) =
      (record s { run_queue = s.run_queue ++ (retried S rocks keccak entity m ∷ []) }, refl)

  dispatch_fine :
      (chain : Chain S) (m : SubmitMessageArgs S) (s : Submitter S rocks keccak entity)
      → Answers chain
      → (s' : Submitter S rocks keccak entity) × (dispatch S rocks keccak entity chain m s
          ≡ (s', fine))
  unfolding dispatch
  dispatch_fine chain m s a = go (chain.message_status (to_leaf keccak m.committed_message)) refl
    where
      go :
          (t : Answer MessageStatus)
          → chain.message_status (to_leaf keccak m.committed_message) ≡ t
          → (s' : Submitter S rocks keccak entity) × (dispatch S rocks keccak entity chain m s
              ≡ (s', fine))
      go (answer processed) e = rw (e, dispatch) (record_fine chain m s a)
      go (answer unprocessed) e =
          rw (e, dispatch) (fine_or_requeued m (process_message S rocks keccak entity chain m s))
      go failure e = absurd (a.status_known _ e)

  pick_fine :
      (chain : Chain S) (q : List (SubmitMessageArgs S)) (s : Submitter S rocks keccak entity)
      → Answers chain
      → (s' : Submitter S rocks keccak entity) × (pick S rocks keccak entity chain q s ≡ (s', fine))
  unfolding pick
  pick_fine chain [] s a = (s, refl)
  pick_fine chain (m ∷ rest) s a = dispatch_fine chain m (record s { run_queue = rest }) a

  pub tick_fine :
      (chain : Chain S) (s : Submitter S rocks keccak entity)
      → s.connected ≡ true
      → Answers chain
      → (s' : Submitter S rocks keccak entity) × (tick S rocks keccak entity chain s ≡ (s', fine))
  unfolding tick
  tick_fine chain s c a = rw c (pick_fine chain _ _ a)

  -- A tick of the loop that takes the message `m`, and what becomes of it.
  pub record Taken (ts : List Turn) (s : Submitter S rocks keccak entity) (m : SubmitMessageArgs S)
      : Type 0 where
    pub earlier : List Turn
    pub turn : Turn
    pub remaining : List Turn
    pub before : Submitter S rocks keccak entity
    pub after : Submitter S rocks keccak entity
    pub others : List (SubmitMessageArgs S)
    pub split : ts ≡ earlier ++ (turn ∷ remaining)
    pub runs : work_loop earlier s ≡ (before, fine)
    pub first : queue S rocks keccak entity (arriving turn.arrivals before) ≡ m ∷ others
    pub ticks : turn_tick turn before ≡ (after, fine)
    pub fate :
        ((queue S rocks keccak entity after ≡ others)
          × (retrieve_leaf_processing_status rocks keccak entity m.leaf_index after.db
              ≡ Outcome.ok (some true)))
        ⊎ (queue S rocks keccak entity after ≡ others ++ (retried S rocks keccak entity m ∷ []))

  Taken-now :
      (t : Turn) (ts : List Turn) (s : Submitter S rocks keccak entity) (m : SubmitMessageArgs S)
      (others : List (SubmitMessageArgs S))
      → s.connected ≡ true
      → Answers t.chain
      → queue S rocks keccak entity (arriving t.arrivals s) ≡ m ∷ others
      → Taken (t ∷ ts) s m
  unfolding work_loop
  Taken-now t ts s m others c a q =
      let (u, e) = tick_fine t.chain (arriving t.arrivals s) c a in
      record {
        earlier = [];
        turn = t;
        remaining = ts;
        before = s;
        after = u;
        others = others;
        split = refl;
        runs = refl;
        first = q;
        ticks = e;
        fate =
            tick_delivers_or_keeps S rocks keccak entity t.chain (arriving t.arrivals s) u m others
              q e;
      }

  Taken-later :
      (t : Turn) (ts : List Turn) (s s' : Submitter S rocks keccak entity) (m : SubmitMessageArgs S)
      → turn_tick t s ≡ (s', fine)
      → Taken ts s' m
      → Taken (t ∷ ts) s m
  unfolding work_loop
  Taken-later t ts s s' m e k = record {
    earlier = t ∷ k.earlier;
    turn = k.turn;
    remaining = k.remaining;
    before = k.before;
    after = k.after;
    others = k.others;
    split = ap (t ∷◌) k.split;
    runs = rw e k.runs;
    first = k.first;
    ticks = k.ticks;
    fate = k.fate;
  }

  -- One turn, with the queue lined up as `l`, the message and those behind it.
  Taken-turn :
      (t : Turn) (ts : List Turn) (s : Submitter S rocks keccak entity) (m : SubmitMessageArgs S)
      (l back : List (SubmitMessageArgs S))
      → s.connected ≡ true
      → Answers t.chain
      → queue S rocks keccak entity (arriving t.arrivals s) ≡ l ++ (m ∷ back)
      → ((u : Submitter S rocks keccak entity) (x : SubmitMessageArgs S)
            (front back' : List (SubmitMessageArgs S))
          → l ≡ x ∷ front
          → u.connected ≡ true
          → u.wait_queue ++ u.rx ≡ []
          → u.run_queue ≡ front ++ (m ∷ back')
          → Taken ts u m)
      → Taken (t ∷ ts) s m
  Taken-turn t ts s m [] back c a e next = Taken-now t ts s m back c a e
  Taken-turn t ts s m (x ∷ l) back c a e next =
      let (u, ran) = tick_fine t.chain (arriving t.arrivals s) c a in
      let (back', q) = tick_behind t.chain (arriving t.arrivals s) u x m l back e ran in
      let (rx, wait, still, _) =
        tick_cases S rocks keccak entity t.chain (arriving t.arrivals s) u x (l ++ (m ∷ back)) e
          ran in
      let idle : u.wait_queue ++ u.rx ≡ [] = λ i. wait i ++ rx i in
      Taken-later t ts s u m ran
        (next u x l back' refl (still ∙ c) idle (sym (ap (◌++ u.run_queue) idle) ∙ q))

  -- The messages before `m` in a turn: those that arrive, then those before it in the run queue.
  lined_up :
      (msgs front rest : List (SubmitMessageArgs S)) (s : Submitter S rocks keccak entity)
      → s.wait_queue ++ s.rx ≡ []
      → s.run_queue ≡ front ++ rest
      → queue S rocks keccak entity (arriving msgs s) ≡ (msgs ++ front) ++ rest
  lined_up msgs front rest s w q =
      ap (◌++ s.run_queue) (sym (append_assoc s.wait_queue s.rx msgs) ∙ ap (◌++ msgs) w)
      ∙ ap (msgs ++◌) q
      ∙ sym (append_assoc msgs front rest)

  -- Between ticks, with the channel's sender alive, and over turns in which the inbox answers and the
  -- database takes writes, whatever arrives in each: if there are more turns than messages before `m`
  -- in the run queue and arrivals together, then one of the ticks takes `m`, and all up to that one
  -- end well. After it either the database says that the leaf of `m` is processed, or `m` stands
  -- at the back of the queue with one more retry counted, whatever the chain answered.
  pub work_loop-reaches :
      (ts : List Turn) (s : Submitter S rocks keccak entity) (m : SubmitMessageArgs S)
      (front back : List (SubmitMessageArgs S))
      → length front + arrived ts < length ts
      → s.connected ≡ true
      → All (λ (t : Turn). Answers t.chain) ts
      → s.wait_queue ++ s.rx ≡ []
      → s.run_queue ≡ front ++ (m ∷ back)
      → Taken ts s m
  unfolding arrived
  work_loop-reaches [] s m front back n c a w q = absurd (omega arith)
  work_loop-reaches (t ∷ ts) s m front back n c a w q =
      Taken-turn t ts s m (t.arrivals ++ front) back c a.0
        (lined_up t.arrivals front (m ∷ back) s w q)
        (λ u x l back' e d idle q'.
          let size : length t.arrivals + length front ≡ suc (length l) =
            sym (length-append t.arrivals front) ∙ ap length e in
          work_loop-reaches ts u m l back' (omega (arith, size, n)) d a.1 idle q')
