-- ===== src/Sort/Integers.antt =====
-- `int_comparator`.
use grub_os_iso_image.Common.{◌≡◌, refl, sym, ◌∙◌, true, false, arith, ℤ, pos, negsuc}
use grub_os_iso_image.Sort.{int_comparator, lt_int, is_positive, is_negative}
use grub_os_iso_image.Sort.Bubble.{IsTotalOrder}
use grub_os_iso_image.Sort.Quick.{IsOpposite}

int_comparator_positive : (a b : ℤ) → is_positive (int_comparator a b) ≡ lt_int b a
unfolding int_comparator
int_comparator_positive (pos a) (pos b) = ground arith
int_comparator_positive (pos a) (negsuc b) = refl
int_comparator_positive (negsuc a) (pos b) = refl
int_comparator_positive (negsuc a) (negsuc b) = ground arith

lt_int_self : (a : ℤ) → lt_int a a ≡ false
lt_int_self (pos a) = ground arith
lt_int_self (negsuc a) = ground arith

lt_int_total : (a b : ℤ) → lt_int b a ≡ true → lt_int a b ≡ false
lt_int_total (pos a) (pos b) h = ground arith
lt_int_total (pos a) (negsuc b) h = refl
lt_int_total (negsuc a) (pos b) h = cc
lt_int_total (negsuc a) (negsuc b) h = ground arith

lt_int_transitive : (a b c : ℤ) → lt_int b a ≡ false → lt_int c b ≡ false → lt_int c a ≡ false
lt_int_transitive (pos a) (pos b) (pos c) h g = ground arith
lt_int_transitive (pos a) (pos b) (negsuc c) h g = cc
lt_int_transitive (pos a) (negsuc b) c h g = cc
lt_int_transitive (negsuc a) b (pos c) h g = refl
lt_int_transitive (negsuc a) (pos b) (negsuc c) h g = cc
lt_int_transitive (negsuc a) (negsuc b) (negsuc c) h g = ground arith

pub int_comparator-IsTotalOrder : IsTotalOrder int_comparator
int_comparator-IsTotalOrder = record {
  self = λ a. int_comparator_positive a a ∙ lt_int_self a;
  total = λ a b h.
      int_comparator_positive b a ∙ lt_int_total a b (sym (int_comparator_positive a b) ∙ h);
  transitive = λ a b c h g.
      int_comparator_positive a c
      ∙ lt_int_transitive a b c (sym (int_comparator_positive a b) ∙ h)
          (sym (int_comparator_positive b c) ∙ g);
}

int_comparator_negative : (a b : ℤ) → is_negative (int_comparator a b) ≡ lt_int a b
unfolding int_comparator
int_comparator_negative (pos a) (pos b) = ground arith
int_comparator_negative (pos a) (negsuc b) = refl
int_comparator_negative (negsuc a) (pos b) = refl
int_comparator_negative (negsuc a) (negsuc b) = ground arith

pub int_comparator-IsOpposite : IsOpposite int_comparator
int_comparator-IsOpposite a b = int_comparator_negative a b ∙ sym (int_comparator_positive b a)
