-- ===== src/Trainer/Placed.antt =====
-- The places that _parse_tf_config gives to workers.
use n_mpc.Prelude.{
  ◌≤◌, ◌<◌, ◌⊎◌, inl, inr, ℕ, String, true, false, Option, none, some, str_eq, ◌≡◌, refl, subst,
  arith, sym, ◌∙◌, Bool-cases,
}
use n_mpc.Prelude.Result.{Result, ok, ◌>>=◌, bind-ok, ok_inj}
use n_mpc.Trainer.TfConfig.{
  Cluster, TfJson, Task, Place, parse_tf_config, parse_fields, alone, task_of, parse_json,
  place_task, count_tasks,
}
use native.Mathlib.Decide.{dec_lt}

-- What holds of a place in any cluster: a worker that is not local has a task, a parameter server
-- and a worker in its cluster, and more than one worker is never local.
pub record IsPlaced (place : Place) : Type 0 where
  pub has_task :
      (place.is_local ≡ true)
      ⊎ ((task : Task) × (place.task ≡ some task)
          × (0 < task.ps_tasks)
          × (0 < place.worker_replicas))
  pub distributed : (place.worker_replicas ≤ 1) ⊎ (place.is_local ≡ false)

place_task-has_task :
    (spec : Cluster) (cluster : Option Cluster) (job : String) (i : ℕ) (place : Place)
    → place_task spec cluster job i ≡ ok place
    → place.is_local ≡ false
    → (place.task ≡ some (task_of spec cluster job i))
      × (0 < count_tasks "ps" spec)
      × (0 < place.worker_replicas)
unfolding place_task
place_task-has_task spec cluster job i place h far = ground arith

place_task-distributed :
    (spec : Cluster) (cluster : Option Cluster) (job : String) (i : ℕ) (place : Place)
    → place_task spec cluster job i ≡ ok place
    → 1 < place.worker_replicas
    → place.is_local ≡ false
unfolding place_task
place_task-distributed spec cluster job i place h many = ground arith

place_task-IsPlaced :
    (spec : Cluster) (cluster : Option Cluster) (job : String) (i : ℕ) (place : Place)
    → place_task spec cluster job i ≡ ok place
    → IsPlaced place
place_task-IsPlaced spec cluster job i place h = record {
  has_task = elim (Bool-cases place.is_local) [
    | inl near ↦ inl near
    | inr far ↦
        let (task, serving, working) = place_task-has_task spec cluster job i place h far in
        inr (task_of spec cluster job i, task, serving, working)
  ];
  distributed = elim (dec_lt 1 place.worker_replicas) [
    | yes many ↦ inr (place_task-distributed spec cluster job i place h many)
    | no few ↦ inl (omega arith)
  ];
}

alone-IsPlaced : IsPlaced alone
alone-IsPlaced = record { has_task = inl refl; distributed = inl (omega arith) }

module _ (loads : String → Result TfJson) (as_dict : Option Cluster → Result Cluster) where
  of_alone : (place : Place) → ok alone ≡ ok place → IsPlaced place
  of_alone place h = subst IsPlaced (ok_inj h) alone-IsPlaced

  parse_fields-IsPlaced :
      (cluster : Option Cluster) (job : Option String) (index : Option ℕ) (place : Place)
      → parse_fields loads as_dict cluster job index ≡ ok place
      → IsPlaced place
  unfolding parse_fields
  parse_fields-IsPlaced cluster none index place h = of_alone place h
  parse_fields-IsPlaced cluster (some job) none place h = of_alone place h
  parse_fields-IsPlaced cluster (some job) (some i) place h =
      let (spec, _, placed) = bind-ok (as_dict cluster) _ h in
      place_task-IsPlaced spec cluster job i place placed

  -- Whatever TF_CONFIG holds, what _parse_tf_config makes of it is such a place.
  pub parse_tf_config-IsPlaced :
      (tf_config : Option String) (place : Place)
      → parse_tf_config loads as_dict tf_config ≡ ok place
      → IsPlaced place
  unfolding parse_tf_config
  parse_tf_config-IsPlaced none place h = of_alone place h
  parse_tf_config-IsPlaced (some text) place h = elim (Bool-cases (str_eq text "")) [
    | inl empty ↦ of_alone place (sym (rw (parse_tf_config, empty) refl) ∙ h)
    | inr full ↦
        let read : (loads text >>= parse_json loads as_dict) ≡ ok place =
          sym (rw (parse_tf_config, full) refl) ∙ h in
        let (json, _, placed) = bind-ok (loads text) _ read in
        parse_fields-IsPlaced json.cluster json.task_type json.index place placed
  ]
