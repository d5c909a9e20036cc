-- ===== src/Emulation/Clients.antt =====
-- The clients of the emulated I2C devices: how many of them the kernel has, gtf/bus_i2c.c.
use driver_optimizer.Prelude.{
  ℕ, ◌≡◌, refl, ◌+◌, ◌-◌, ◌≤◌, ◌==◌, ◌&&◌, not, Bool, true, false, List, [], ◌∷◌, ◌++◌,
  if◌then◌else◌, arith, inl, inr, Bool-cases,
}
use driver_optimizer.Action.{ok}
use driver_optimizer.Emulation.{
  Emulation, Chip, KernelCall, BoardInfo, pci_enable_device, pci_disable_device, kzalloc, kfree,
  i2c_add_adapter, i2c_del_adapter, i2c_new_device, i2c_unregister_device, platform_device_register,
  platform_device_unregister, spi_bitbang_start, spi_bitbang_stop, spi_master_get, spi_master_put,
  spi_new_device,
}
use driver_optimizer.Emulation.I2c.{cleanup_from}

abbrev pub hit : ℕ → ℕ → ℕ
hit client x = if client == 0 then 0 else if client == x then 1 else 0

-- how many clients at the address x the kernel has, after the calls
unfoldable pub devices : List KernelCall → ℕ → ℕ
devices [] x = 0
devices (i2c_new_device _ client ∷ calls) x = devices calls x + hit client x
devices (i2c_unregister_device client ∷ calls) x = devices calls x - hit client x
devices (pci_enable_device _ ∷ calls) x = devices calls x
devices (pci_disable_device _ ∷ calls) x = devices calls x
devices (platform_device_register _ ∷ calls) x = devices calls x
devices (platform_device_unregister ∷ calls) x = devices calls x
devices (spi_bitbang_start _ ∷ calls) x = devices calls x
devices (spi_bitbang_stop _ ∷ calls) x = devices calls x
devices (spi_master_get _ ∷ calls) x = devices calls x
devices (spi_master_put _ ∷ calls) x = devices calls x
devices (spi_new_device _ _ _ ∷ calls) x = devices calls x
devices (kzalloc _ ∷ calls) x = devices calls x
devices (kfree _ ∷ calls) x = devices calls x
devices (i2c_add_adapter ∷ calls) x = devices calls x
devices (i2c_del_adapter ∷ calls) x = devices calls x

pub devices-new :
    (info : BoardInfo) (client : ℕ) (calls : List KernelCall) (x : ℕ)
    → devices (i2c_new_device info client ∷ calls) x ≡ devices calls x + hit client x
unfolding devices
devices-new info client calls x = refl

-- how many of the chips in use have the client x
unfoldable pub held : List Chip → ℕ → ℕ
held [] x = 0
held (chip ∷ chips) x = if chip.chip_addr == 0 then 0 else hit chip.client x + held chips x

-- what cleanup_devices leaves of the chips, and what it calls
pub cleaned : List Chip → List Chip
cleaned [] = []
cleaned (chip ∷ chips) =
    if chip.chip_addr == 0 then chip ∷ chips else record chip { client = 0 } ∷ cleaned chips

pub unregistered : List Chip → List KernelCall → List KernelCall
unregistered [] calls = calls
unregistered (chip ∷ chips) calls =
    if chip.chip_addr == 0
    then calls
    else if chip.client == 0
    then unregistered chips calls
    else unregistered chips (i2c_unregister_device chip.client ∷ calls)

pub cleanup_from_lem :
    (chips : List Chip) (s : Emulation)
    → cleanup_from chips s ≡ ok (cleaned chips, record s { calls = unregistered chips s.calls })
unfolding cleanup_from cleaned unregistered
cleanup_from_lem [] s = refl
cleanup_from_lem (chip ∷ chips) s = elim (Bool-cases (chip.chip_addr == 0)) [
  | inl unused ↦ rw unused refl
  | inr used ↦ elim (Bool-cases (chip.client == 0)) [
    | inl vacant ↦ rw (used, vacant, cleanup_from_lem chips s) refl
    | inr taken ↦
        rw
          (
            used,
            taken,
            cleanup_from_lem chips
                (record s { calls = i2c_unregister_device chip.client ∷ s.calls }),
          )
          refl
  ]
]

pub held-cleaned : (chips : List Chip) (x : ℕ) → held (cleaned chips) x ≡ 0
unfolding held cleaned
held-cleaned [] x = refl
held-cleaned (chip ∷ chips) x = let rest = held-cleaned chips x in ground arith

pub devices-unregistered :
    (chips : List Chip) (calls : List KernelCall)
    → ((x : ℕ) → held chips x ≤ devices calls x)
    → (x : ℕ) → devices (unregistered chips calls) x + held chips x ≡ devices calls x
unfolding held devices unregistered
devices-unregistered [] calls enough x = omega arith
devices-unregistered (chip ∷ chips) calls enough x = elim (Bool-cases (chip.chip_addr == 0)) [
  | inl unused ↦ rw unused (omega arith)
  | inr used ↦ elim (Bool-cases (chip.client == 0)) [
    | inl vacant ↦
        let rest = devices-unregistered chips calls (λ y. let here = enough y in ground arith) x in
        ground arith
    | inr taken ↦
        let rest =
          devices-unregistered chips (i2c_unregister_device chip.client ∷ calls)
            (λ y. let here = enough y in ground arith) x in
        let here = enough x in ground arith
  ]
]

-- the chips before the index of the loop of alloc_devices, and from it on
unfoldable pub all_used : List Chip → Bool
all_used [] = true
all_used (chip ∷ chips) = not (chip.chip_addr == 0) && all_used chips

unfoldable pub all_vacant : List Chip → Bool
all_vacant [] = true
all_vacant (chip ∷ chips) = chip.client == 0 && all_vacant chips

pub held-all_vacant : (chips : List Chip) (x : ℕ) → all_vacant chips ≡ true → held chips x ≡ 0
unfolding held all_vacant
held-all_vacant [] x e = refl
held-all_vacant (chip ∷ chips) x e = let rest = held-all_vacant chips x in ground arith

pub held-append :
    (before after : List Chip) (x : ℕ)
    → all_used before ≡ true
    → held (before ++ after) x ≡ held before x + held after x
unfolding held all_used
held-append [] after x e = omega arith
held-append (chip ∷ before) after x e = let rest = held-append before after x in ground arith

pub held-made :
    (before : List Chip) (made : Chip) (after : List Chip) (x : ℕ)
    → all_used before ≡ true
    → (made.chip_addr == 0) ≡ false
    → all_vacant after ≡ true
    → held (before ++ made ∷ after) x ≡ held before x + hit made.client x
unfolding held
held-made before made after x used in_use vacant =
    let all = held-append before (made ∷ after) x used in
    let rest = held-all_vacant after x vacant in ground arith

pub held-unused :
    (before : List Chip) (chip : Chip) (after : List Chip) (x : ℕ)
    → all_used before ≡ true
    → (chip.chip_addr == 0) ≡ true
    → held (before ++ chip ∷ after) x ≡ held before x
unfolding held
held-unused before chip after x used unused =
    let all = held-append before (chip ∷ after) x used in ground arith

pub all_used-append :
    (before : List Chip) (chip : Chip)
    → all_used before ≡ true
    → (chip.chip_addr == 0) ≡ false
    → all_used (before ++ chip ∷ []) ≡ true
unfolding all_used
all_used-append [] chip e used = rw used refl
all_used-append (first ∷ before) chip e used =
    let rest = all_used-append before chip in ground arith
