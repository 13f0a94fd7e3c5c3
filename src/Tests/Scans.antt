-- ===== src/Tests/Scans.antt =====
-- The scan of the processor over several ticks, and the search for a quorum.
use ethmexico.Base.{ℕ, refl, none, [], ◌∷◌, arith}
use ethmexico.Multisig.{fetch_checkpoint}
use ethmexico.Multisig.Support.{support, AllSound}
use ethmexico.Multisig.Finds.{Decided, fetch_checkpoint-Decided}
use ethmexico.Relayer.Processor.{starting, main_loop}
use ethmexico.Relayer.Processor.Scan.{IsScanned, main_loop-IsScanned}
use ethmexico.Tests.Setting.{toy_hash, map_rocks, entity}
use ethmexico.Tests.Relay.{moment, fresh}
use ethmexico.Tests.Sync.{signer_of, syncers}

main_loop-IsScanned_example :
    IsScanned ℕ map_rocks toy_hash entity 43113 none none
      (moment ∷ (moment ∷ []))
      (main_loop ℕ map_rocks toy_hash entity moment.seen
        (moment ∷ (moment ∷ []))
        (starting ℕ map_rocks toy_hash entity 43113 none none fresh)).0
main_loop-IsScanned_example =
    main_loop-IsScanned ℕ map_rocks toy_hash entity 43113 none none moment.seen
      (moment ∷ (moment ∷ [])) fresh (omega arith)

syncers-AllSound : AllSound ℕ toy_hash toy_hash signer_of 1000 3 syncers
unfolding ethmexico.Multisig.recover
syncers-AllSound = ((22, refl, refl), ((11, refl, refl), tt))

fetch_checkpoint-Decided_example :
    Decided ℕ toy_hash toy_hash signer_of 1000 3 2
      (λ root. support ℕ toy_hash toy_hash signer_of 1000 3 root syncers)
      (fetch_checkpoint ℕ toy_hash toy_hash signer_of 2 syncers 3)
fetch_checkpoint-Decided_example =
    fetch_checkpoint-Decided ℕ toy_hash toy_hash signer_of 1000 3 2 syncers (omega arith)
      syncers-AllSound
