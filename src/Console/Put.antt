-- ===== src/Console/Put.antt =====
-- `k_putchar` stays on the screen.
use grub_os_iso_image.Common.{
  ℕ, suc, ◌+◌, ◌*◌, ◌%◌, ◌<◌, ◌≡◌, ◌∙◌, inl, inr, false, not, ◌&&◌, ◌||◌, List, arith, leb, ◌==◌,
  if◌then◌else◌, ==_iff, Bool-cases, length, get_or, set as set_elem, length-set, get_or-set_self,
  get_or-set_ne, ok, write-eq-ok, bit_and, bit_and-mask,
}
use grub_os_iso_image.Console.{Screen, columns, lines, attribute, newline, k_putchar}

pub record OnScreen (s : Screen) : Type 0 where
  pub memory : length s.video ≡ columns * lines * 2
  pub column : s.xpos < columns
  pub row : s.ypos < lines

-- The number of the place that the next character is written to.
abbrev pub cursor : Screen → ℕ
cursor s = s.xpos + s.ypos * columns

-- The character at a place, and its attribute.
abbrev pub char_at : Screen → ℕ → ℕ
char_at s k = get_or s.video (k * 2) 0

abbrev pub attribute_at : Screen → ℕ → ℕ
attribute_at s k = get_or s.video (k * 2 + 1) 0

-- `after` shows the character at the cursor, and else what `before` shows.
pub record IsPut (c : ℕ) (before after : Screen) : Type 0 where
  pub on_screen : OnScreen after
  pub shown :
      (k : ℕ)
      → char_at after k
        ≡ (if not (c == 10 || c == 13) && k == cursor before then c % 256 else char_at before k)
  pub colour :
      (k : ℕ)
      → attribute_at after k ≡ (
          if not (c == 10 || c == 13) && k == cursor before
          then attribute
          else attribute_at before k)
  pub moved : cursor after ≡ (
      if c == 10 || c == 13
      then (before.ypos + 1) % lines * columns
      else (cursor before + 1) % (columns * lines))

-- The video memory after a character has been written to place `n`.
abbrev written : List ℕ → ℕ → ℕ → List ℕ
written video n c = set_elem (set_elem video (n * 2) c) (n * 2 + 1) attribute

shown_at :
    (video : List ℕ) (n c k : ℕ)
    → n * 2 + 1 < length video
    → get_or (written video n c) (k * 2) 0 ≡ (if k == n then c else get_or video (k * 2) 0)
shown_at video n c k h =
    get_or-set_ne (set_elem video (n * 2) c) (n * 2 + 1) (k * 2) attribute 0 (λ e. omega arith)
    ∙ elim (Bool-cases (k == n)) [
      | inl e ↦
          let same : k ≡ n = (==_iff k n).0 e in
          rw (e, same) (get_or-set_self video (n * 2) c 0 (omega arith))
      | inr e ↦ rw e (get_or-set_ne video (n * 2) (k * 2) c 0 (λ q. ground arith))
    ]

colour_at :
    (video : List ℕ) (n c k : ℕ)
    → n * 2 + 1 < length video
    → get_or (written video n c) (k * 2 + 1) 0
      ≡ (if k == n then attribute else get_or video (k * 2 + 1) 0)
colour_at video n c k h = elim (Bool-cases (k == n)) [
  | inl e ↦
      let same : k ≡ n = (==_iff k n).0 e in
      rw (e, same)
        (get_or-set_self (set_elem video (n * 2) c) (n * 2 + 1) attribute 0
          (omega (arith, length-set video (n * 2) c)))
  | inr e ↦ rw e (
      get_or-set_ne (set_elem video (n * 2) c) (n * 2 + 1) (k * 2 + 1) attribute 0
        (λ q. ground arith)
      ∙ get_or-set_ne video (n * 2) (k * 2 + 1) c 0 (λ q. omega arith))
]

-- A character that is not a line break, on the video memory that it leaves.
module _ (c : ℕ) (s : Screen) (o : OnScreen s) (plain : (c == 10 || c == 13) ≡ false) where
  abbrev video_after : List ℕ
  video_after = written s.video (cursor s) (bit_and c 0xff)

  room : cursor s * 2 + 1 < length s.video
  room = omega (arith, o.memory, o.column, o.row)

  same_memory : length video_after ≡ columns * lines * 2
  same_memory =
      length-set (set_elem s.video (cursor s * 2) (bit_and c 0xff)) (cursor s * 2 + 1) attribute
      ∙ length-set s.video (cursor s * 2) (bit_and c 0xff)
      ∙ o.memory

  abbrev next_place : Screen
  next_place =
      if leb columns (suc s.xpos)
      then newline (record s { video = video_after; xpos = suc s.xpos })
      else record s { video = video_after; xpos = suc s.xpos }

  k_putchar_char : k_putchar c s ≡ ok next_place
  unfolding k_putchar
  k_putchar_char =
      let first = write-eq-ok s.video (cursor s * 2) (bit_and c 0xff) (omega (arith, room)) in
      let second =
        write-eq-ok (set_elem s.video (cursor s * 2) (bit_and c 0xff)) (cursor s * 2 + 1) attribute
          (omega (arith, room, length-set s.video (cursor s * 2) (bit_and c 0xff))) in
      rw (plain, first, second)

  shown_next :
      (k : ℕ) → get_or video_after (k * 2) 0 ≡ (if k == cursor s then c % 256 else char_at s k)
  shown_next k =
      let byte : bit_and c 0xff ≡ c % 256 = bit_and-mask 8 c in
      rw byte (shown_at s.video (cursor s) (c % 256) k room)

  colour_next :
      (k : ℕ)
      → get_or video_after (k * 2 + 1) 0 ≡ (if k == cursor s then attribute else attribute_at s k)
  colour_next k = colour_at s.video (cursor s) (bit_and c 0xff) k room

  next_place-IsPut : IsPut c s next_place
  next_place-IsPut = elim (Bool-cases (leb columns (suc s.xpos))) [
    | inl full ↦ rw full (record {
      on_screen = record {
        memory = same_memory;
        column = omega arith;
        row = ground (arith, o.row);
      };
      shown = λ k. rw plain (shown_next k);
      colour = λ k. rw plain (colour_next k);
      moved = rw plain (ground (arith, o.column, o.row));
    })
    | inr space ↦ rw space (record {
      on_screen = record { memory = same_memory; column = ground arith; row = o.row };
      shown = λ k. rw plain (shown_next k);
      colour = λ k. rw plain (colour_next k);
      moved = rw plain (ground (arith, o.column, o.row));
    })
  ]

-- On a screen with its video memory and a cursor on it, `k_putchar` returns and leaves such a
-- screen. A line feed or carriage return changes no place and moves to the start of the next row,
-- the first after the last; any other character is shown at the cursor with the attribute, no
-- other place changes, and the cursor moves on by one place, from the last to the first.
pub k_putchar_lem :
    (c : ℕ) (s : Screen)
    → OnScreen s
    → (after : Screen) × (k_putchar c s ≡ ok after) × IsPut c s after
unfolding k_putchar
k_putchar_lem c s o = elim (Bool-cases (c == 10 || c == 13)) [
  | inl line ↦ (
    newline s,
    rw line,
    record {
      on_screen = record { memory = o.memory; column = omega arith; row = ground (arith, o.row) };
      shown = λ k. rw line;
      colour = λ k. rw line;
      moved = rw line (ground (arith, o.row));
    },
  )
  | inr plain ↦ (next_place c s o plain, k_putchar_char c s o plain, next_place-IsPut c s o plain)
]
