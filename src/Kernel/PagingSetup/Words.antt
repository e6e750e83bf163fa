-- ===== src/Kernel/PagingSetup/Words.antt =====
-- The loops of `paging_setup` on memory as a sequence of words.
use grub_os_iso_image.Common.{
  ℕ, zero, suc, ◌+◌, ◌-◌, ◌*◌, ◌/◌, ◌%◌, ◌^◌, ◌≤◌, ◌<◌, ◌≡◌, refl, ◌∙◌, ◌≢◌, inl, inr, true, false,
  ◌&&◌, arith, ltb, leb, ◌==◌, if◌then◌else◌, ==_iff, Bool-cases, u32, ok, ◌>>=◌, bit_or,
  bit_or-disjoint, bit_or_comm,
}
use grub_os_iso_image.Paging.{stored}
use grub_os_iso_image.Kernel.PagingSetup.{Frames, poke, peek, fill_words, link_tables}

-- Word number `w` of memory.
abbrev pub word : Frames → ℕ → ℕ
word frames w = frames (w / 1024) (w % 1024)

word-stored :
    (frames : Frames) (w v x : ℕ)
    → word (stored frames (w / 1024) (w % 1024) v) x ≡ (if x == w then v else word frames x)
word-stored frames w v x = elim (Bool-cases (x == w)) [
  | inl e ↦
      rw
        (
          e,
          (==_iff x w).0 e,
          (==_iff (w / 1024) (w / 1024)).1 refl,
          (==_iff (w % 1024) (w % 1024)).1 refl,
        )
        refl
  | inr e ↦ rw (e, other e) refl
]
  where
    other : (x == w) ≡ false → (x / 1024 == w / 1024 && x % 1024 == w % 1024) ≡ false
    other e = ground arith

pub poke_lem :
    (w v : ℕ) (frames : Frames)
    → w < 2 ^ 30
    → (frames' : Frames) × (poke (u32 (4 * w)) v frames ≡ ok frames')
      × ((x : ℕ) → word frames' x ≡ (if x == w then v else word frames x))
unfolding poke
poke_lem w v frames small =
    let whole : 4 * w % 2 ^ 32 ≡ 4 * w = omega arith in
    let even : 4 * w % 4 ≡ 0 = omega arith in
    let frame : 4 * w / 4096 ≡ w / 1024 = omega arith in
    let index : 4 * w % 4096 / 4 ≡ w % 1024 = omega arith in
    (
      stored frames (w / 1024) (w % 1024) v,
      rw (whole, even, frame, index) refl,
      word-stored frames w v,
    )

peek_lem : (w : ℕ) (frames : Frames) → w < 2 ^ 30 → peek (u32 (4 * w)) frames ≡ ok (word frames w)
unfolding peek
peek_lem w frames small =
    let whole : 4 * w % 2 ^ 32 ≡ 4 * w = omega arith in
    let even : 4 * w % 4 ≡ 0 = omega arith in
    let frame : 4 * w / 4096 ≡ w / 1024 = omega arith in
    let index : 4 * w % 4096 / 4 ≡ w % 1024 = omega arith in rw (whole, even, frame, index) refl

-- One more round of a loop that fills words.
extended :
    (value : ℕ → ℕ) (b i x old : ℕ)
    → (if x == b + i then value i else (if leb b x && ltb x (b + i) then value (x - b) else old))
      ≡ (if leb b x && ltb x (b + suc i) then value (x - b) else old)
extended value b i x old = elim (Bool-cases (x == b + i)) [
  | inl e ↦
      let last : x - b ≡ i = ground arith in
      let inside : (leb b x && ltb x (b + suc i)) ≡ true = ground arith in rw (e, inside, last) refl
  | inr e ↦
      let same : (leb b x && ltb x (b + suc i)) ≡ (leb b x && ltb x (b + i)) = ground arith in
      rw (e, same) refl
]

pub fill_words_lem :
    (value : ℕ → ℕ) (b n : ℕ) (frames : Frames)
    → b + n ≤ 2 ^ 30
    → (frames' : Frames) × (fill_words value (4 * b) n frames ≡ ok frames')
      × ((x : ℕ)
          → word frames' x ≡ (if leb b x && ltb x (b + n) then value (x - b) else word frames x))
unfolding fill_words
fill_words_lem value b zero frames h = (frames, refl, λ x. ground arith)
fill_words_lem value b (suc i) frames h =
    let (f1, run1, w1) = fill_words_lem value b i frames (omega arith) in
    let (f2, run2, w2) = poke_lem (b + i) (value i) f1 (omega arith) in
    let sum : 4 * b + 4 * i ≡ 4 * (b + i) = omega arith in
    (f2, rw (run1, sum, run2) refl, λ x. w2 x ∙ rw (w1 x) (extended value b i x (word frames x)))

-- `entry |= flags` on an address at a multiple of 4096.
pub flagged : (a flags : ℕ) → flags < 2 ^ 12 → bit_or (4096 * a) flags ≡ 4096 * a + flags
flagged a flags small =
    let shift : 4096 * a ≡ a * 2 ^ 12 = omega arith in
    rw shift (bit_or_comm (a * 2 ^ 12) flags ∙ bit_or-disjoint 12 flags a small ∙ omega arith)

-- The words that are linked, and those that are not.
pub record IsLinked (slot : ℕ → ℕ) (flags t b n : ℕ) (frames frames' : Frames) : Type 0 where
  pub linked : (i : ℕ) → i < n → word frames' (b + slot i) ≡ 4096 * (t + i) + flags
  pub others : (x : ℕ) → ((i : ℕ) → i < n → x ≢ b + slot i) → word frames' x ≡ word frames x

pub link_once :
    (w a flags : ℕ) (frames : Frames)
    → w < 2 ^ 30
    → flags < 2 ^ 12
    → (frames' : Frames) × ((do
      linked ← poke (u32 (4 * w)) (4096 * a) frames
      entry ← peek (u32 (4 * w)) linked
      poke (u32 (4 * w)) (bit_or entry flags) linked)
        ≡ ok frames')
      × ((x : ℕ) → word frames' x ≡ (if x == w then 4096 * a + flags else word frames x))
link_once w a flags frames small low =
    let (f1, run1, w1) = poke_lem w (4096 * a) frames small in
    let (f2, run2, w2) = poke_lem w (4096 * a + flags) f1 small in
    let entry : word f1 w ≡ 4096 * a = w1 w ∙ rw ((==_iff w w).1 refl) refl in
    (
      f2,
      rw (run1, peek_lem w f1 small, entry, flagged a flags low) run2,
      λ x.
          w2 x ∙ elim (Bool-cases (x == w)) [ inl e ↦ rw e refl | inr e ↦ rw e (w1 x ∙ rw e refl) ],
    )

false_of_refl : (w : ℕ) → (w == w) ≢ false
false_of_refl w e = ground arith

pub link_tables_lem :
    (slot : ℕ → ℕ) (flags t b n : ℕ) (frames : Frames)
    → flags < 2 ^ 12
    → ((i j : ℕ) → slot i ≡ slot j → i ≡ j)
    → ((i : ℕ) → i < n → b + slot i < 2 ^ 30)
    → t + n ≤ 2 ^ 20
    → (frames' : Frames) × (link_tables slot flags (4096 * t) (4 * b) n frames ≡ ok frames')
      × IsLinked slot flags t b n frames frames'
unfolding link_tables
link_tables_lem slot flags t b zero frames low apart inside fits =
    (frames, refl, record { linked = λ i l. absurd (omega arith); others = λ x h. refl })
link_tables_lem slot flags t b (suc n) frames low apart inside fits =
    let (f1, run1, l1) =
      link_tables_lem slot flags t b n frames low apart (λ i l. inside i (omega arith))
        (omega arith) in
    let (f2, run2, w2) = link_once (b + slot n) (t + n) flags f1 (inside n (omega arith)) low in
    let sum : 4 * b + 4 * slot n ≡ 4 * (b + slot n) = omega arith in
    let address : u32 (4096 * t + 4096 * n) ≡ 4096 * (t + n) = omega arith in
    (
      f2,
      rw (run1, sum, address) run2,
      record {
        linked = λ i l. w2 (b + slot i) ∙ elim (Bool-cases (b + slot i == b + slot n)) [
          | inl e ↦
              let same : i ≡ n =
                apart i n (omega (arith, (==_iff (b + slot i) (b + slot n)).0 e)) in
              rw (e, same) refl
          | inr e ↦
              let other : i ≢ n = λ q. false_of_refl (b + slot n) (rw q at e) in
              rw e (l1.linked i (omega arith))
        ];
        others = λ x h.
            w2 x
            ∙ let other : (x == b + slot n) ≡ false = ground (arith, h n (omega arith)) in
              rw other (l1.others x (λ i l. h i (omega arith)));
      },
    )
