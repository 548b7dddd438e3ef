-- ===== src/Tests/RoundTrip.antt =====
-- A number that libvmi/write.c writes across two physical pages and libvmi/read.c reads back.
use libvmi.Common.{ℕ, ◌+◌, ◌<◌, some, ◌≡◌, ◌≢◌, refl, arith}
use libvmi.Types.{success}
use libvmi.Tests.{conf}
use libvmi.Access.Window.{window}
use libvmi.Access.Read.{read_start, start_ok, vmi_read}
use libvmi.Access.Write.{vmi_write}
use libvmi.Access.Sized.{vmi_read_64, vmi_write_64}
use libvmi.Access.Sized.RoundTrip.{IsMemory, vmi_read_64-vmi_write_64, vmi_read-vmi_write}
use libvmi.Tests.Writes.{tr, env, ctx, start, program, IsGood, env-IsWritable, env-IsMapped, apart}

env-IsMemory : IsMemory env conf ctx start IsGood (λ s. s)
unfolding program read_start start_ok
env-IsMemory = record {
  to_read = λ s good. (s, refl, tt, refl);
  to_write = λ s good. (s, refl, tt, refl);
  checked = refl;
  still = λ a s. refl;
  page = λ pfn s good. (s, refl, tt, refl);
}

vmi_read-vmi_write_example :
    (s₁ s₂ : ℕ → ℕ) × (vmi_write env conf ctx 8 (window (λ i. 7 + i) 0 8) (λ p. 0)
      ≡ (success, some 8, s₁))
    × (vmi_read env conf ctx 8 s₁ ≡ (success, window (λ i. 7 + i) 0 8, s₂))
    × ((p : ℕ) → ((i : ℕ) → i < 8 → p ≢ tr (4094 + i)) → s₂ p ≡ 0)
    × Unit {0}
vmi_read-vmi_write_example =
    vmi_read-vmi_write env conf ctx start IsGood (λ i. 7 + i) tr (λ s. s) 8 (refl, omega arith)
      env-IsMemory env-IsWritable (env-IsMapped 8) apart (omega arith) (omega arith) (omega arith)
      (λ p. 0) tt

vmi_read_64-vmi_write_64_example :
    (s₁ s₂ : ℕ → ℕ) × (vmi_write_64 env conf ctx 0x0102030405060708 (λ p. 0) ≡ (success, s₁))
    × (vmi_read_64 env conf ctx 3 s₁ ≡ (success, 0x0102030405060708, s₂))
    × Unit {0}
vmi_read_64-vmi_write_64_example =
    vmi_read_64-vmi_write_64 env conf ctx start IsGood tr (λ s. s) (refl, omega arith) env-IsMemory
      env-IsWritable (env-IsMapped 8) apart (omega arith) (omega arith) 0x0102030405060708 3
      (λ p. 0) (omega arith) tt
