-- ===== src/Submit/Resources/Gpus.antt =====
-- What the handler of the requested GPUs leaves for the chart.
use runai_cli.Prelude.{
  ℕ, true, false, Option, none, some, str_eq, eq_iff, ◌≡◌, ◌≢◌, refl, ◌≤◌, ◌<◌, ◌/◌, ◌+◌, zero, suc,
  ltb, lt→ltb, Bool-cases, inl, inr, arith, ℤ, pos, negsuc, quotient, less_than, decimal,
}
use runai_cli.Submit.Resources.{
  Arithmetic, GpuArgs, set_gpus, set_gpu_memory, handle_requested_gpus, dispatch,
}

-- What an accepted request becomes, in each of the ways to make one.
pub data Handled (num : Arithmetic) (args : GpuArgs num.Float) : GpuArgs num.Float → Type 0 where
  nothing_asked : args.gpu ≡ none → args.gpu_memory ≡ "" → Handled num args args
  memory_asked :
      (bytes : ℕ)
      → args.gpu ≡ none
      → args.gpu_memory ≢ ""
      → num.parse_quantity args.gpu_memory ≡ some (pos bytes)
      → 100 ≤ bytes / 1000000
      → Handled num args (record args { gpu_memory = decimal (bytes / 1000000) })
  whole_asked :
      (gpu : num.Float)
      → args.gpu ≡ some gpu
      → args.gpu_memory ≡ ""
      → num.same (num.of_int (num.truncate gpu)) gpu ≡ true
      → Handled num args (record args { gpu_int = some (num.truncate gpu) })
  fraction_asked :
      (gpu : num.Float)
      → args.gpu ≡ some gpu
      → args.gpu_memory ≡ ""
      → num.same (num.of_int (num.truncate gpu)) gpu ≡ false
      → Handled num args (record args { gpu_fraction = num.general gpu })

less_than-quotient-negsuc : (n d m : ℕ) → 0 < m → less_than (quotient (negsuc n) d) m ≡ true
unfolding quotient less_than
less_than-quotient-negsuc n d m h = go ((n + 1) / d)
  where
    go : (q : ℕ) → less_than (elim q [ zero ↦ pos 0 | suc k ↦ negsuc k ]) m ≡ true
    go zero = lt→ltb 0 m h
    go (suc k) = refl

module _ (num : Arithmetic) (args : GpuArgs num.Float) where
  memory-Handled :
      (bytes : Option ℤ)
      → args.gpu ≡ none
      → args.gpu_memory ≢ ""
      → num.parse_quantity args.gpu_memory ≡ bytes
      → (set_gpu_memory num args bytes).1 ≡ none
      → Handled num args (set_gpu_memory num args bytes).0
  unfolding set_gpu_memory
  memory-Handled none e m q h = cc
  memory-Handled (some (pos n)) e m q h = elim (Bool-cases (ltb (n / 1000000) 100)) [
    | inl low ↦ cc (rw low at h)
    | inr enough ↦ rw enough (memory_asked n e m q (ground arith))
  ]
  memory-Handled (some (negsuc n)) e m q h =
      cc (rw (less_than-quotient-negsuc n 1000000 100 (omega arith)) at h)

  gpus-Handled :
      (gpu : num.Float)
      → args.gpu ≡ some gpu
      → args.gpu_memory ≡ ""
      → Handled num args (set_gpus num args gpu)
  unfolding set_gpus
  gpus-Handled gpu e m = elim (Bool-cases (num.same (num.of_int (num.truncate gpu)) gpu)) [
    | inl whole ↦ rw whole (whole_asked gpu e m whole)
    | inr part ↦ rw part (fraction_asked gpu e m part)
  ]

  dispatch-Handled :
      (gpu : Option num.Float)
      → args.gpu ≡ gpu
      → (dispatch num args gpu).1 ≡ none
      → Handled num args (dispatch num args gpu).0
  dispatch-Handled none e h = elim (Bool-cases (str_eq args.gpu_memory "")) [
    | inl empty ↦ rw empty (nothing_asked e ((eq_iff _ _).0 empty))
    | inr asked ↦ rw asked (memory-Handled _ e (λ q. cc (rw q at asked)) refl (rw asked at h))
  ]
  dispatch-Handled (some gpu) e h = elim (Bool-cases (str_eq args.gpu_memory "")) [
    | inl empty ↦ rw empty (gpus-Handled gpu e ((eq_iff _ _).0 empty))
    | inr asked ↦ cc (rw asked at h)
  ]

  -- An accepted request for GPUs asks for nothing, for memory, for a whole number of GPUs or for a
  -- part of one, never for GPUs and memory at once; memory is at least 100 times 10^6 bytes, and is stored as that
  -- whole number of times; a number of GPUs is stored as a whole number exactly when it is one.
  pub handle_requested_gpus-Handled :
      (handle_requested_gpus num args).1 ≡ none
      → Handled num args (handle_requested_gpus num args).0
  unfolding handle_requested_gpus
  handle_requested_gpus-Handled h = dispatch-Handled args.gpu refl h
