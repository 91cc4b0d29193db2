-- ===== src/Coordinator/Settings.antt =====
-- coordinator.py: `DistributedConfig` and what the coordinator's constructor derives from it.
use drone_swarm_simulator.Prelude.{
  Bool, false, ◌&&◌, Option, none, some, zero, suc, ◌≡◌, subst, arith, if◌then◌else◌,
}
use drone_swarm_simulator.Prelude.Int.{ℤ, pos, negsuc, ltb_ℤ, ◌≤ℤ◌}
use drone_swarm_simulator.Prelude.Results.{Result, ok, err, ◌>>=◌, ◌>>◌, OnOk}
use drone_swarm_simulator.Numeric.{Floats, IsExact, ◌≼◌}
use drone_swarm_simulator.Config.{SimulationConfig, raise_if, get_or_else, interaction_radius}

pub record DistributedConfig (F : Type 0) : Type 0 where
  pub num_workers : ℤ
  pub num_partitions : Option ℤ
  pub halo_distance : Option F
  pub rebalance_interval_ticks : ℤ
  pub rebalance_imbalance_threshold : F
  pub worker_retry_limit : ℤ
  pub use_threads : Bool
  pub use_processes : Bool

pub data SettingsError : Type 0 where
  too_few_workers too_few_partitions interval_too_short threshold_too_low : SettingsError
  too_few_retries threads_and_processes halo_too_small : SettingsError

abbrev below_one_when_set : Option ℤ → Bool
below_one_when_set none = false
below_one_when_set (some n) = ltb_ℤ n (pos 1)

-- `dist_config.num_partitions or dist_config.num_workers`.
abbrev pub partitions_or_workers : Option ℤ → ℤ → ℤ
partitions_or_workers none workers = workers
partitions_or_workers (some (pos zero)) workers = workers
partitions_or_workers (some (pos (suc n))) workers = pos (suc n)
partitions_or_workers (some (negsuc n)) workers = negsuc n

module _ {F : Type 0} ⦃f : Floats F⦄ where
  -- `__post_init__`.
  abbrev pub check_settings : DistributedConfig F → Result SettingsError (Unit {0})
  check_settings d = do
    raise_if (ltb_ℤ d.num_workers (pos 1)) too_few_workers
    raise_if (below_one_when_set d.num_partitions) too_few_partitions
    raise_if (ltb_ℤ d.rebalance_interval_ticks (pos 1)) interval_too_short
    raise_if (f.le d.rebalance_imbalance_threshold (f.of_ℕ 1)) threshold_too_low
    raise_if (ltb_ℤ d.worker_retry_limit (pos 1)) too_few_retries
    raise_if (d.use_threads && d.use_processes) threads_and_processes

  abbrev pub halo_of : DistributedConfig F → SimulationConfig F → F
  halo_of d c = get_or_else d.halo_distance (interaction_radius c)

  -- The number of partitions and the halo distance of a coordinator over a checked configuration.
  unfoldable pub init_settings :
      DistributedConfig F → SimulationConfig F → Result SettingsError (ℤ × F)
  init_settings d c = check_settings d >>= λ _.
      if f.lt (halo_of d c) (interaction_radius c)
      then err halo_too_small
      else ok (partitions_or_workers d.num_partitions d.num_workers, halo_of d c)

  -- What the coordinator relies on.
  pub record AreUsable (d : DistributedConfig F) (c : SimulationConfig F) (settings : ℤ × F)
      : Type 0 where
    pub some_workers : pos 1 ≤ℤ d.num_workers
    pub some_partitions : pos 1 ≤ℤ settings.0
    pub some_attempts : pos 1 ≤ℤ d.worker_retry_limit
    pub halo_covers : c.near_miss_radius ≼ settings.1

  module _ (laws : IsExact F) where
    open laws use {lt-eq-not-le}

    partitions_at_least_one :
        (n : Option ℤ) (workers : ℤ)
        → below_one_when_set n ≡ false
        → pos 1 ≤ℤ workers
        → pos 1 ≤ℤ partitions_or_workers n workers
    partitions_at_least_one none workers h k = k
    partitions_at_least_one (some (pos zero)) workers h k = k
    partitions_at_least_one (some (pos (suc n))) workers h k = omega arith
    partitions_at_least_one (some (negsuc n)) workers h k = ground arith

    -- Under exact arithmetic, when the checks of DistributedConfig and of the coordinator's
    -- constructor accept, there are at least one worker, one partition and one attempt, and the
    -- halo distance is at least the near-miss radius.
    pub init_settings-AreUsable :
        (d : DistributedConfig F) (c : SimulationConfig F) (settings : ℤ × F)
        → init_settings d c ≡ ok settings
        → AreUsable d c settings
    unfolding init_settings
    init_settings-AreUsable d c settings h =
        let workers : pos 1 ≤ℤ d.num_workers = ground arith in
        let partitions_set : below_one_when_set d.num_partitions ≡ false = ground arith in
        let halo_big : f.lt (halo_of d c) (interaction_radius c) ≡ false = ground arith in
        let found : Result SettingsError (ℤ × F) =
          ok (partitions_or_workers d.num_partitions d.num_workers, halo_of d c) in
        let e : found ≡ ok settings = ground arith in
        let halo_covers : interaction_radius c ≼ halo_of d c =
          ground (arith, lt-eq-not-le (halo_of d c) (interaction_radius c)) in
        subst (OnOk {E = SettingsError} (AreUsable d c)) e (record {
          some_workers = workers;
          some_partitions =
              partitions_at_least_one d.num_partitions d.num_workers partitions_set workers;
          some_attempts = ground arith;
          halo_covers = halo_covers;
        })
