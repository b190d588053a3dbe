-- ===== src/Security.antt =====
-- kern/security/security.c: a mapping that is asked to be writable and executable loses the latter.
mod Tests
use Prim.Native.Nat.{bit_and}
use astral_os.Common.{
  ℕ, ◌+◌, ◌-◌, ◌*◌, ◌/◌, ◌%◌, ◌^◌, ◌<◌, ◌≡◌, ◌⊎◌, inl, inr, refl, Bool, true, false, not, ◌&&◌, ◌∙◌,
  List, [], ◌∷◌, arith, if◌then◌else◌, ◌==◌, Bool-cases, Status, ok, error,
}
use astral_os.Common.Bits.{bit_and-half, bit_and-zero}
use astral_os.Memory.VmMaps.{
  Vm, VmMapEntry, entry, is_free, vm_prot_write, vm_prot_exec, vm_protect,
}
use astral_os.Memory.VmMaps.Table.{IsDisjoint}
use astral_os.Memory.VmMaps.Resolve.{Changed, NoneAt, Reflagged, vm_protect-Changed}

abbrev pub writable : ℕ → Bool
writable flags = not (bit_and flags vm_prot_write == 0)

abbrev pub executable : ℕ → Bool
executable flags = not (bit_and flags vm_prot_exec == 0)

-- `flags & ~VM_PROT_EXEC` at 32 bits
abbrev pub without_exec : ℕ → ℕ
without_exec flags = bit_and flags (2 ^ 32 - 1 - vm_prot_exec)

pub security_enforce_wx : Vm → (addr size current_prot_flags : ℕ) → Vm
security_enforce_wx vm addr size current_prot_flags =
    if writable current_prot_flags && executable current_prot_flags
    then (vm_protect vm addr size (without_exec current_prot_flags)).1
    else vm

executable-without_exec : (flags : ℕ) → executable (without_exec flags) ≡ false
executable-without_exec flags =
    let masked : ℕ = without_exec flags in
    ground (
      arith,
      bit_and-half masked 4,
      bit_and-half (masked / 2) 2,
      bit_and-half (masked / 2 / 2) 1,
      bit_and-zero (masked / 2 / 2 / 2),
      bit_and-half flags (2 ^ 32 - 1 - 4),
      bit_and-half (flags / 2) ((2 ^ 32 - 1 - 4) / 2),
      bit_and-half (flags / 2 / 2) ((2 ^ 32 - 1 - 4) / 2 / 2),
    )

writable-without_exec : (flags : ℕ) → writable (without_exec flags) ≡ writable flags
writable-without_exec flags =
    let masked : ℕ = without_exec flags in
    ground (
      arith,
      bit_and-half masked 2,
      bit_and-half (masked / 2) 1,
      bit_and-zero (masked / 2 / 2),
      bit_and-half flags 2,
      bit_and-half (flags / 2) 1,
      bit_and-zero (flags / 2 / 2),
      bit_and-half flags (2 ^ 32 - 1 - 4),
      bit_and-half (flags / 2) ((2 ^ 32 - 1 - 4) / 2),
    )

-- What the call leaves. Either the flags named do not ask for both, and nothing changes; or no
-- mapping in use starts at the address, and nothing changes; or one that does gets flags that are
-- as writable as those named and not executable, and no other address changes.
abbrev pub Enforced : Vm → (addr flags : ℕ) → Vm → Type 0
Enforced vm addr flags vm' =
    (((writable flags && executable flags) ≡ false) × (vm' ≡ vm))
    ⊎ ((NoneAt addr vm.vm_map_entries × (vm' ≡ vm))
        ⊎ ((prot : ℕ) × Reflagged vm.vm_map_entries addr prot vm'.vm_map_entries
            × (writable prot ≡ true)
            × (executable prot ≡ false)))

Enforced-Changed :
    (vm : Vm) (addr flags : ℕ) (r : Status × Vm)
    → writable flags ≡ true
    → Changed vm addr (without_exec flags) r
    → Enforced vm addr flags r.1
Enforced-Changed vm addr flags (error, vm') w (same, missing) = inr (inl (missing, same))
Enforced-Changed vm addr flags (ok, vm') w (r, flushed) =
    inr
      (inr (without_exec flags, r, writable-without_exec flags ∙ w, executable-without_exec flags))

-- `security_enforce_wx`, on a table whose mappings share no address, never leaves the mapping at the
-- address named both writable and executable by the flags that it sets: it changes nothing where the
-- flags named do not ask for both or no mapping starts there, and else sets flags that are
-- writable and not executable, on that mapping alone.
pub security_enforce_wx-Enforced :
    (vm : Vm) (addr size flags : ℕ)
    → IsDisjoint vm.vm_map_entries
    → Enforced vm addr flags (security_enforce_wx vm addr size flags)
unfolding security_enforce_wx
security_enforce_wx-Enforced vm addr size flags d =
    elim (Bool-cases (writable flags && executable flags)) [
      | inl both ↦
          let ran : security_enforce_wx vm addr size flags
              ≡ (vm_protect vm addr size (without_exec flags)).1 =
            rw both refl in
          rw ran (
            Enforced-Changed vm addr flags (vm_protect vm addr size (without_exec flags))
              (ground arith) (vm_protect-Changed vm addr size (without_exec flags) d))
      | inr fine ↦ inl (fine, rw fine refl)
    ]
