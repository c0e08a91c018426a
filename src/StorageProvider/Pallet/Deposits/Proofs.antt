-- ===== src/StorageProvider/Pallet/Deposits/Proofs.antt =====
-- `submit_windowed_post` and the declarations keep the deposits in their totals.
use polka_storage.Base.{ℕ, List, [], ◌∷◌}
use polka_storage.Btree.Set.{BtreeSet}
use polka_storage.Btree.Map.{BtreeMap}
use polka_storage.StorageProvider.Sector.{SectorOnChainInfo}
use polka_storage.StorageProvider.Deadline.{Deadline}
use polka_storage.StorageProvider.SectorMap.{DeadlineSectorMap, new_sector_map}
use polka_storage.StorageProvider.State.{StorageProviderState}
use polka_storage.StorageProvider.Pallet.{Config, Declaration}
use polka_storage.StorageProvider.Pallet.Monad.Holds.{
  Holds, Any, Holds-bind, Holds-expect, Holds-pure, Holds-ensure, Holds-ok_or, Holds-lift,
}
use polka_storage.StorageProvider.Pallet.Checks.{SubmitWindowedPostParams}
use polka_storage.StorageProvider.Pallet.Post.{
  add_replicas, replicas_of, collect_replicas, check_submission, submit_windowed_post,
}
use polka_storage.StorageProvider.Pallet.Declare.{
  group_declarations, target_deadline, record_deadline_faults, record_all_faults, declare_faults,
  record_deadline_recoveries, record_all_recoveries, declare_faults_recovered,
}
use polka_storage.StorageProvider.Pallet.Deposits.{IsFunded}
use polka_storage.StorageProvider.Pallet.Deposits.Checks.{
  Holds-validate_deadline, Holds-get_randomness,
}
use polka_storage.StorageProvider.Pallet.Deposits.Storage.{
  AllFunded, Holds-try_get, Holds-insert_provider, Holds-deposit_event, Holds-on_chain,
}

module _ (c : Config) where
  Holds-add_replicas :
      (sectors : BtreeMap SectorOnChainInfo) (numbers : BtreeSet) (replicas : BtreeMap (List ℕ))
      → Holds (AllFunded c) Any (add_replicas c sectors numbers replicas)
  unfolding add_replicas
  Holds-add_replicas sectors [] replicas = Holds-pure replicas tt
  Holds-add_replicas sectors (n ∷ numbers) replicas =
      Holds-bind _ _ (Holds-expect {Q = Any} _ (λ _ _. tt)) (λ info _.
        Holds-bind _ _ (Holds-expect {Q = Any} _ (λ _ _. tt)) (λ comm_r _.
          Holds-bind _ _ (Holds-ok_or {Q = Any} _ _ (λ _ _. tt))
            (λ replicas' _. Holds-add_replicas sectors numbers replicas')))

  Holds-replicas_of :
      (sectors : BtreeMap SectorOnChainInfo) (d : Deadline) (partitions : List ℕ)
      (replicas : BtreeMap (List ℕ))
      → Holds (AllFunded c) Any (replicas_of c sectors d partitions replicas)
  unfolding replicas_of
  Holds-replicas_of sectors d [] replicas = Holds-pure replicas tt
  Holds-replicas_of sectors d (n ∷ partitions) replicas =
      Holds-bind _ _ (Holds-ok_or {Q = Any} _ _ (λ _ _. tt)) (λ partition _.
        Holds-bind _ _ (Holds-add_replicas sectors partition.sectors replicas)
          (λ replicas' _. Holds-replicas_of sectors d partitions replicas'))

  Holds-collect_replicas :
      (sp : StorageProviderState c.PeerId) (i : ℕ) (partitions : List ℕ)
      → Holds (AllFunded c) Any (collect_replicas c sp i partitions)
  unfolding collect_replicas
  Holds-collect_replicas sp i [] = Holds-pure [] tt
  Holds-collect_replicas sp i (n ∷ partitions) =
      Holds-bind _ _ (Holds-expect {Q = Any} _ (λ _ _. tt))
        (λ d _. Holds-replicas_of sp.sectors d (n ∷ partitions) [])

  Holds-check_submission :
      (block : ℕ) (sp : StorageProviderState c.PeerId) (params : SubmitWindowedPostParams)
      → Holds (AllFunded c) Any (check_submission c block sp params)
  unfolding check_submission
  Holds-check_submission block sp params = Holds-bind _ _ (Holds-ensure _ _) (λ _ _.
      Holds-bind _ _ (Holds-ensure _ _)
        (λ _ _. Holds-bind _ _ (Holds-ensure _ _) (λ _ _. Holds-validate_deadline c _ params)))

  pub Holds-submit_windowed_post :
      (owner block : ℕ) (params : SubmitWindowedPostParams)
      → Holds (AllFunded c) Any (submit_windowed_post c owner block params)
  unfolding submit_windowed_post
  Holds-submit_windowed_post owner block params = Holds-bind _ _ (Holds-try_get c owner) (λ sp h.
      Holds-bind _ _ (Holds-check_submission block sp params) (λ _ _.
        Holds-bind _ _ (Holds-lift {Q = Any} _ (λ _ _. tt)) (λ deadlines _.
          Holds-bind _ _ (Holds-collect_replicas _ params.deadline params.partitions) (λ replicas _.
            Holds-bind _ _ (Holds-get_randomness c _ _ _) (λ randomness _.
              Holds-bind _ _ (Holds-on_chain c _) (λ _ _.
                Holds-bind _ _ (Holds-insert_provider c owner _ (record { funded = h.funded }))
                  (λ _ _. Holds-deposit_event c _)))))))

  Holds-group_declarations :
      (terms : List Declaration) (m : DeadlineSectorMap)
      → Holds (AllFunded c) Any (group_declarations c terms m)
  unfolding group_declarations
  Holds-group_declarations [] m = Holds-pure m tt
  Holds-group_declarations (term ∷ terms) m = Holds-bind _ _ (Holds-ensure _ _) (λ _ _.
      Holds-bind _ _ (Holds-lift {Q = Any} _ (λ _ _. tt))
        (λ m' _. Holds-group_declarations terms m'))

  Holds-target_deadline :
      (block : ℕ) (sp : StorageProviderState c.PeerId) (i : ℕ)
      → Holds (AllFunded c) Any (target_deadline c block sp i)
  unfolding target_deadline
  Holds-target_deadline block sp i =
      Holds-bind _ _ (Holds-ensure _ _) (λ _ _. Holds-lift _ (λ _ _. tt))

  Holds-record_all_faults :
      (block : ℕ) (m : DeadlineSectorMap) (sp : StorageProviderState c.PeerId)
      → IsFunded sp
      → Holds (AllFunded c) IsFunded (record_all_faults c block m sp)
  unfolding record_all_faults record_deadline_faults
  Holds-record_all_faults block [] sp h = Holds-pure sp h
  Holds-record_all_faults block ((i, partitions) ∷ rest) sp h =
      Holds-bind {Q = IsFunded} _ _
        (Holds-bind _ _ (Holds-target_deadline block sp i) (λ dl _.
          Holds-bind _ _ (Holds-ensure _ _) (λ _ _.
            Holds-bind _ _ (Holds-lift {Q = Any} _ (λ _ _. tt)) (λ d _.
              Holds-bind _ _ (Holds-lift {Q = Any} _ (λ _ _. tt))
                (λ d' _. Holds-pure _ (record { funded = h.funded }))))))
        (λ sp' h'. Holds-record_all_faults block rest sp' h')

  pub Holds-declare_faults :
      (owner block : ℕ) (faults : List Declaration)
      → Holds (AllFunded c) Any (declare_faults c owner block faults)
  unfolding declare_faults
  Holds-declare_faults owner block faults = Holds-bind _ _ (Holds-try_get c owner) (λ sp h.
      Holds-bind _ _ (Holds-group_declarations faults new_sector_map) (λ m _.
        Holds-bind _ _ (Holds-record_all_faults block m sp h) (λ sp' h'.
          Holds-bind _ _ (Holds-insert_provider c owner sp' h') (λ _ _. Holds-deposit_event c _))))

  Holds-record_all_recoveries :
      (block : ℕ) (m : DeadlineSectorMap) (sp : StorageProviderState c.PeerId)
      → IsFunded sp
      → Holds (AllFunded c) IsFunded (record_all_recoveries c block m sp)
  unfolding record_all_recoveries record_deadline_recoveries
  Holds-record_all_recoveries block [] sp h = Holds-pure sp h
  Holds-record_all_recoveries block ((i, partitions) ∷ rest) sp h =
      Holds-bind {Q = IsFunded} _ _
        (Holds-bind _ _ (Holds-target_deadline block sp i) (λ dl _.
          Holds-bind _ _ (Holds-ensure _ _) (λ _ _.
            Holds-bind _ _ (Holds-lift {Q = Any} _ (λ _ _. tt)) (λ d _.
              Holds-bind _ _ (Holds-lift {Q = Any} _ (λ _ _. tt))
                (λ d' _. Holds-pure _ (record { funded = h.funded }))))))
        (λ sp' h'. Holds-record_all_recoveries block rest sp' h')

  pub Holds-declare_faults_recovered :
      (owner block : ℕ) (recoveries : List Declaration)
      → Holds (AllFunded c) Any (declare_faults_recovered c owner block recoveries)
  unfolding declare_faults_recovered
  Holds-declare_faults_recovered owner block recoveries =
      Holds-bind _ _ (Holds-try_get c owner) (λ sp h.
        Holds-bind _ _ (Holds-group_declarations recoveries new_sector_map) (λ m _.
          Holds-bind _ _ (Holds-record_all_recoveries block m sp h) (λ sp' h'.
            Holds-bind _ _ (Holds-insert_provider c owner sp' h')
              (λ _ _. Holds-deposit_event c _))))
