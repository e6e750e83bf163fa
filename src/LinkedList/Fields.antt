-- ===== src/LinkedList/Fields.antt =====
-- Assignments to the fields of an item, and what is read behind them.
use grub_os_iso_image.Common.{ℕ, ◌≡◌, refl, ◌≢◌, false, Option, some, arith, ◌==◌, ==_iff, ok}
use grub_os_iso_image.LinkedList.{Item, Heap, put, load, set_next, set_prev, set_payload}
use grub_os_iso_image.LinkedList.Ring.{load-some}

pub put_self : (h : Heap) (p : ℕ) (x : Option Item) → put h p x p ≡ x
put_self h p x = rw ((==_iff p p).1 refl) refl

pub put_other : (h : Heap) (p a : ℕ) (x : Option Item) → a ≢ p → put h p x a ≡ h a
put_other h p a x n = let other : (a == p) ≡ false = ground arith in rw other refl

-- The assignments to a field.
pub set_next_lem :
    (p q : ℕ) (h : Heap) (x : Item)
    → load p h ≡ ok x
    → set_next p q h ≡ ok (put h p (some (record x { next = q })))
unfolding set_next
set_next_lem p q h x e = rw e refl

pub set_prev_lem :
    (p q : ℕ) (h : Heap) (x : Item)
    → load p h ≡ ok x
    → set_prev p q h ≡ ok (put h p (some (record x { prev = q })))
unfolding set_prev
set_prev_lem p q h x e = rw e refl

pub set_payload_lem :
    (p v : ℕ) (h : Heap) (x : Item)
    → load p h ≡ ok x
    → set_payload p v h ≡ ok (put h p (some (record x { payload = v })))
unfolding set_payload
set_payload_lem p v h x e = rw e refl

pub load_self : (h : Heap) (p : ℕ) (x : Item) → p ≢ 0 → load p (put h p (some x)) ≡ ok x
load_self h p x n = load-some p _ x n (put_self h p (some x))

pub load_other :
    (h : Heap) (p a : ℕ) (x : Item) (y : Option Item)
    → load a h ≡ ok x
    → a ≢ p
    → load a (put h p y) ≡ ok x
unfolding load
load_other h p a x y e n = rw (put_other h p a y n) e
