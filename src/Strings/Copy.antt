-- ===== src/Strings/Copy.antt =====
-- `k_memcpy`, `k_memset` and `k_strcpy`.
use grub_os_iso_image.Common.{
  ℕ, zero, suc, ◌+◌, ◌-◌, ◌≤◌, ◌<◌, ◌≡◌, refl, ◌∙◌, ◌≢◌, ◌⊎◌, inl, inr, true, false, ◌&&◌, List, [],
  ◌∷◌, arith, ltb, leb, ◌==◌, if◌then◌else◌, ==_iff, Bool-cases, length, get_or, set, length-set,
  get_or-set_self, get_or-set_ne, ok, read-eq-ok, write-eq-ok,
}
use grub_os_iso_image.Strings.{k_memcpy, k_memset, copy_from, k_strcpy}

get_or-set :
    (xs : List ℕ) (i j v : ℕ)
    → i < length xs
    → get_or (set xs i v) j 0 ≡ (if j == i then v else get_or xs j 0)
get_or-set xs i j v h = elim (Bool-cases (j == i)) [
  | inl e ↦ let p : j ≡ i = (==_iff _ _).0 e in rw (e, p) (get_or-set_self xs i v 0 h)
  | inr e ↦ rw e (get_or-set_ne xs i j v 0 (λ p. ground arith))
]

-- For ranges within memory, of which the destination begins at or below the source or lies behind
-- it, `k_memcpy` returns and keeps the length of memory. The destination holds what the source
-- held before, and the other bytes are unchanged.
pub k_memcpy_lem :
    (dest src len : ℕ) (memory : List ℕ)
    → src + len ≤ length memory
    → dest + len ≤ length memory
    → (dest ≤ src) ⊎ (src + len ≤ dest)
    → (after : List ℕ) × (k_memcpy dest src len memory ≡ ok after)
      × (length after ≡ length memory)
      × ((a : ℕ)
          → get_or after a 0 ≡ (
              if leb dest a && ltb a (dest + len)
              then get_or memory (src + (a - dest)) 0
              else get_or memory a 0))
unfolding k_memcpy
k_memcpy_lem dest src zero memory s d o = (memory, refl, refl, λ a. ground arith)
k_memcpy_lem dest src (suc len) memory s d o =
    let byte = get_or memory src 0 in
    let memory' = set memory dest byte in
    let r = read-eq-ok memory src 0 (omega arith) in
    let w = write-eq-ok memory dest byte (omega arith) in
    let l' : length memory' ≡ length memory = length-set memory dest byte in
    let (after, run, l, bytes) =
      k_memcpy_lem (suc dest) (suc src) len memory' (omega (arith, l')) (omega (arith, l'))
        (ground arith) in
    (
      after,
      rw (r, w) run,
      l ∙ l',
      λ a. bytes a ∙ copied a (get_or-set memory dest a byte (omega arith)),
    )
  where
    first : ℕ
    first = get_or memory src 0

    copied :
        (a : ℕ)
        → get_or (set memory dest first) a 0 ≡ (if a == dest then first else get_or memory a 0)
        → (if leb (suc dest) a && ltb a (suc dest + len)
            then get_or (set memory dest first) (suc src + (a - suc dest)) 0
            else get_or (set memory dest first) a 0)
          ≡ (if leb dest a && ltb a (dest + suc len)
              then get_or memory (src + (a - dest)) 0
              else get_or memory a 0)
    copied a q = elim (Bool-cases (leb (suc dest) a && ltb a (suc dest + len))) [
      | inl inner ↦
          let index : suc src + (a - suc dest) ≡ src + (a - dest) = ground arith in
          let outer : (leb dest a && ltb a (dest + suc len)) ≡ true = ground arith in
          let apart : dest ≢ src + (a - dest) = λ e. ground arith in
          rw (inner, outer, index) (get_or-set_ne memory dest (src + (a - dest)) first 0 apart)
      | inr other ↦ elim (Bool-cases (a == dest)) [
        | inl e ↦
            let p : a ≡ dest = (==_iff _ _).0 e in
            let outer : (leb dest a && ltb a (dest + suc len)) ≡ true = ground arith in
            let index : src + (a - dest) ≡ src = omega arith in rw (other, outer, index) (rw e at q)
        | inr e ↦
            let outer : (leb dest a && ltb a (dest + suc len)) ≡ false = ground arith in
            rw (other, outer) (rw e at q)
      ]
    ]

-- For a range within memory `k_memset` returns and keeps the length of memory. The bytes of the
-- range have the value, and the others are unchanged.
pub k_memset_lem :
    (dest val len : ℕ) (memory : List ℕ)
    → dest + len ≤ length memory
    → (after : List ℕ) × (k_memset dest val len memory ≡ ok after)
      × (length after ≡ length memory)
      × ((a : ℕ)
          → get_or after a 0
            ≡ (if leb dest a && ltb a (dest + len) then val else get_or memory a 0))
unfolding k_memset
k_memset_lem dest val zero memory d = (memory, refl, refl, λ a. ground arith)
k_memset_lem dest val (suc len) memory d =
    let l' : length (set memory dest val) ≡ length memory = length-set memory dest val in
    let (after, run, l, bytes) =
      k_memset_lem (suc dest) val len (set memory dest val) (omega (arith, l')) in
    (
      after,
      rw (write-eq-ok memory dest val (omega arith)) run,
      l ∙ l',
      λ a. ground (arith, bytes a, get_or-set memory dest a val (omega arith)),
    )

-- The bytes of the string and no 0 stand from `address` on, and a 0 behind them.
abbrev pub IsString : List ℕ → ℕ → List ℕ → Type 0
IsString memory address [] = (get_or memory address 0 ≡ 0) × (address < length memory)
IsString memory address (c ∷ s) =
    (get_or memory address 0 ≡ c) × (0 < c) × IsString memory (suc address) s

pub IsString-within :
    (memory : List ℕ) (address : ℕ) (s : List ℕ)
    → IsString memory address s
    → address + length s < length memory
IsString-within memory address [] h = omega arith
IsString-within memory address (c ∷ s) h = omega (arith, IsString-within memory (suc address) s h.2)

-- A write outside a string leaves it.
IsString-set :
    (memory : List ℕ) (address i v : ℕ) (s : List ℕ)
    → (i < address) ⊎ (address + length s < i)
    → IsString memory address s
    → IsString (set memory i v) address s
IsString-set memory address i v [] o h = (
  get_or-set_ne memory i address v 0 (λ e. ground arith) ∙ h.0,
  omega (arith, length-set memory i v),
)
IsString-set memory address i v (c ∷ s) o h = (
  get_or-set_ne memory i address v 0 (λ e. ground arith) ∙ h.0,
  h.1,
  IsString-set memory (suc address) i v s (ground arith) h.2,
)

copy_from_lem :
    (fuel dest src c : ℕ) (s : List ℕ) (memory : List ℕ)
    → IsString memory src (c ∷ s)
    → (dest + length s < src) ⊎ (src + suc (length s) < dest)
    → dest + length s < length memory
    → length s < fuel
    → copy_from fuel dest src memory ≡ k_memcpy dest src (suc (length s)) memory
unfolding copy_from k_memcpy
copy_from_lem zero dest src c s memory h o d f = absurd (omega arith)
copy_from_lem (suc fuel) dest src c [] memory h o d f =
    let within = IsString-within memory src (c ∷ []) h in
    let memory' = set memory dest (get_or memory src 0) in
    let w = write-eq-ok memory dest (get_or memory src 0) (omega arith) in
    let next =
      read-eq-ok memory' (suc src) 0
        (omega (arith, length-set memory dest (get_or memory src 0))) in
    let kept = IsString-set memory (suc src) dest (get_or memory src 0) [] (ground arith) h.2 in
    rw (read-eq-ok memory src 0 (omega arith), w, next, kept.0)
copy_from_lem (suc fuel) dest src c (c' ∷ s) memory h o d f =
    let within = IsString-within memory src (c ∷ c' ∷ s) h in
    let byte = get_or memory src 0 in
    let memory' = set memory dest byte in
    let l : length memory' ≡ length memory = length-set memory dest byte in
    let w = write-eq-ok memory dest byte (omega arith) in
    let next = read-eq-ok memory' (suc src) 0 (omega arith) in
    let kept = IsString-set memory (suc src) dest byte (c' ∷ s) (ground arith) h.2 in
    let more : (get_or memory' (suc src) 0 == 0) ≡ false = ground (arith, kept.0, kept.1) in
    let after =
      copy_from_lem fuel (suc dest) (suc src) c' s memory' kept (ground arith) (omega arith)
        (omega arith) in
    rw (read-eq-ok memory src 0 (omega arith), w, next, more) (rw next at after)

-- For a string of at least one character and a destination range within memory that is apart from
-- it, `k_strcpy` does what `k_memcpy` does for the characters without the final 0.
k_strcpy-k_memcpy :
    (dest src c : ℕ) (s : List ℕ) (memory : List ℕ)
    → IsString memory src (c ∷ s)
    → (dest + length s < src) ⊎ (src + suc (length s) < dest)
    → dest + length s < length memory
    → k_strcpy dest src memory ≡ k_memcpy dest src (length (c ∷ s)) memory
unfolding k_strcpy
k_strcpy-k_memcpy dest src c s memory h o d =
    copy_from_lem (length memory) dest src c s memory h o d
      (omega (arith, IsString-within memory src (c ∷ s) h))
