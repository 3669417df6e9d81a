-- ===== src/Policies/Tests.antt =====
-- Runs of the rules.
use kortex_memory.Prelude.{◌≡◌, refl, Bool, true, false, none, some, [], ◌∷◌, Text}
use kortex_memory.Types.{Sensitivity}
use kortex_memory.Policies.{Pattern, max_memories, trusts_allowed_for, Trust}

abbrev probe_only : Pattern → Text → Bool
probe_only Pattern.system_prompt_probe t = true
probe_only _ t = false

-- An unknown plan has the limits of the free one.
max_memories_runs : (max_memories "pro" ≡ some 100_000) × (max_memories "legacy" ≡ some 25_000)
unfolding max_memories
max_memories_runs = (refl, refl)

trusts_allowed_for_runs :
    (trusts_allowed_for Sensitivity.internal ≡ none)
    × (trusts_allowed_for Sensitivity.secret ≡ some (Trust.high ∷ Trust.medium ∷ []))
unfolding trusts_allowed_for
trusts_allowed_for_runs = (refl, refl)
