-- ===== src/Descriptors/Handlers.antt =====
-- `register_interrupt_handler` and `isr_handler`.
use grub_os_iso_image.Common.{
  ℕ, zero, suc, ◌<◌, ◌≡◌, refl, inl, inr, some, List, [], ◌∷◌, arith, ◌==◌, if◌then◌else◌,
  Bool-cases, length, set, Run, ok, read, write-eq-ok,
}
use grub_os_iso_image.Descriptors.{Registers, Handlers, register_interrupt_handler, isr_handler}

read-set :
    {A : Type 0} (xs : List A) (i j : ℕ) (v : A)
    → i < length xs
    → read (set xs i v) j ≡ (if j == i then ok v else read xs j)
read-set [] i j v h = absurd (omega arith)
read-set (x ∷ xs) zero zero v h = refl
read-set (x ∷ xs) zero (suc j) v h = ground arith
read-set (x ∷ xs) (suc i) zero v h = ground arith
read-set (x ∷ xs) (suc i) (suc j) v h =
    let same : (suc j == suc i) ≡ (j == i) = ground arith in
    rw same (read-set xs i j v (omega arith))

-- After `register_interrupt_handler` for an interrupt number in range, `isr_handler` calls the new
-- handler for that number, and does for other numbers what it did before.
isr_handler-register :
    {S : Type 0} (n : ℕ) (handler : Registers → S → Run S) (handlers : Handlers S)
    → n < length handlers
    → (after : Handlers S) × (register_interrupt_handler n handler handlers ≡ ok after)
      × ((report : S → Run S) (regs : Registers) (s : S)
          → isr_handler report after regs s
            ≡ (if regs.int_no == n then handler regs s else isr_handler report handlers regs s))
unfolding register_interrupt_handler isr_handler
isr_handler-register n handler handlers h = (
  set handlers n (some handler),
  write-eq-ok handlers n (some handler) h,
  λ report regs s. elim (Bool-cases (regs.int_no == n)) [
    | inl e ↦ rw (read-set handlers n regs.int_no (some handler) h, e)
    | inr e ↦ rw (read-set handlers n regs.int_no (some handler) h, e)
  ],
)
