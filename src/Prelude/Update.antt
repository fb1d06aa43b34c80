-- ===== src/Prelude/Update.antt =====
-- C arrays and memory as functions of an index, written at one index.
use Prim.Native.Nat.{ℕ}
use so2_zeos.Prelude.Tests.{◌==◌, if◌then◌else◌}

abbrev pub update {ℓ} : {A : Type ℓ} → (ℕ → A) → ℕ → A → ℕ → A
update f i a j = if j == i then a else f j
