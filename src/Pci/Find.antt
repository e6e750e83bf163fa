-- ===== src/Pci/Find.antt =====
-- Which network card `find_card` remembers.
use grub_os_iso_image.Common.{
  ℕ, zero, suc, ◌+◌, ◌*◌, ◌/◌, ◌%◌, ◌^◌, ◌≤◌, ◌<◌, ◌≡◌, refl, ap, ◌∙◌, ◌≢◌, inl as left,
  inr as right, true, false, ◌&&◌, arith, ◌==◌, if◌then◌else◌, ==_iff, Bool-cases, u16, ◌>>>◌, ok,
  bit_and-mask,
}
use native.Mathlib.Nat.{eq-or-lt_of_le}
use grub_os_iso_image.Pci.Ports.{Ports, Io, done, ◌>>=◌}
use grub_os_iso_image.Pci.Address.{config_address, IsFunction}
use grub_os_iso_image.Pci.Bridge.{HostBridge, r_pci_32_lem}
use grub_os_iso_image.Pci.Scan.{
  Card, no_card, identify, probe, scan_functions, scan_devices, scan_busses, find_card,
}

-- The functions in the order of their addresses: number `n` is function `n % 8` of device
-- `n / 8 % 32` on bus `n / 256`.
abbrev pub no_function : ℕ
no_function = 0xffffffff

abbrev pub card_id : ℕ
card_id = 0x813910ec

abbrev pub card_at : ℕ → Card
card_at n = record {
  found = true;
  pci_bus = n / 256;
  pci_device = n / 8 % 32;
  pci_device_fn = n % 8;
}

-- What is remembered if number `n` is the last function there is.
abbrev pub IsVerdict : (ℕ → ℕ) → ℕ → Card → Type 0
IsVerdict id n card = if id n == card_id then card ≡ card_at n else card.found ≡ false

-- `card` is what the functions below `n` leave, `id` giving the first register of each.
pub record Seen (id : ℕ → ℕ) (n : ℕ) (card : Card) : Type 0 where
  pub nothing : ((q : ℕ) → q < n → id q ≡ no_function) → card ≡ no_card
  pub latest :
      (p : ℕ)
      → p < n
      → id p ≢ no_function
      → ((q : ℕ) → p < q → q < n → id q ≡ no_function)
      → IsVerdict id p card

Seen-zero : (id : ℕ → ℕ) → Seen id 0 no_card
Seen-zero id = record { nothing = λ h. refl; latest = λ p l. absurd (omega arith) }

-- The test on the two halves is one on the whole register.
identify_lem :
    (bus device func id : ℕ) (card : Card)
    → id < 2 ^ 32
    → identify bus device func id card ≡ (
        if id == card_id
        then record { found = true; pci_bus = bus; pci_device = device; pci_device_fn = func }
        else record card { found = false })
unfolding identify
identify_lem bus device func id card small = rw (bit_and-mask 16 id, same_test) refl
  where
    same_test : (u16 (id % 2 ^ 16) == 0x10ec && u16 (id >>> 16) == 0x8139) ≡ (id == card_id)
    same_test = elim (Bool-cases (id == card_id)) [
      | left e ↦ rw ((==_iff id card_id).0 e) refl
      | right e ↦ ground arith
    ]

identify-IsVerdict :
    (id : ℕ → ℕ) (bus device func n : ℕ) (card : Card)
    → IsFunction bus device func
    → n ≡ bus * 256 + device * 8 + func
    → id n < 2 ^ 32
    → IsVerdict id n (identify bus device func (id n) card)
identify-IsVerdict id bus device func n card f e small = elim (Bool-cases (id n == card_id)) [
  | left same ↦
      let b : bus ≡ n / 256 = omega (arith, f.device_small, f.func_small) in
      let d : device ≡ n / 8 % 32 = omega (arith, f.device_small, f.func_small) in
      let g : func ≡ n % 8 = omega (arith, f.func_small) in
      rw (identify_lem bus device func (id n) card small, same, b, d, g) refl
  | right other ↦ rw (identify_lem bus device func (id n) card small, other) refl
]

Seen-absent :
    (id : ℕ → ℕ) (n : ℕ) (card : Card) → Seen id n card → id n ≡ no_function → Seen id (n + 1) card
Seen-absent id n card s e = record {
  nothing = λ h. s.nothing λ q l. h q (omega arith);
  latest = λ p l there later. elim (eq-or-lt_of_le {n = p} {m = n} (omega arith)) [
    | left same ↦ absurd (there (rw same e))
    | right less ↦ s.latest p less there λ q after before. later q after (omega arith)
  ];
}

Seen-present :
    (id : ℕ → ℕ) (n : ℕ) (card' : Card)
    → id n ≢ no_function
    → IsVerdict id n card'
    → Seen id (n + 1) card'
Seen-present id n card' e v = record {
  nothing = λ h. absurd (e (h n (omega arith)));
  latest = λ p l there later. elim (eq-or-lt_of_le {n = p} {m = n} (omega arith)) [
    | left same ↦ rw same v
    | right less ↦ absurd (e (later n less (omega arith)))
  ];
}

module _ {D : Type 0} (ports : Ports D) (bridge : HostBridge ports) (space : ℕ → ℕ) where
  open bridge use {config, config_small}

  abbrev pub IsSpace : D → Type 0
  IsSpace d = (a : ℕ) → config d a ≡ space a

  -- The first register of a function.
  abbrev pub id_of : ℕ → ℕ
  id_of n = space (2 ^ 31 + n * 2 ^ 8)

  -- `step` takes what the functions below `n` leave to what those below `m` leave.
  abbrev Advances : (Card → Io D Card) → ℕ → ℕ → Type 0
  Advances step n m =
      (card : Card) (d : D)
      → IsSpace d
      → Seen id_of n card
      → (card' : Card) × (d' : D) × (step card d ≡ ok (card', d')) × IsSpace d' × Seen id_of m card'

  compose :
      {step after : Card → Io D Card} {n k m : ℕ}
      → Advances step n k
      → Advances after k m
      → Advances (λ card. step card >>= after) n m
  compose {step} {after} f g card d c s =
      let (card1, d1, e, c1, s1) = f card d c s in
      let (card2, d2, e2, c2, s2) = g card1 d1 c1 s1 in (card2, d2, rw e e2, c2, s2)

  stay : (n m : ℕ) → m ≡ n → Advances done n m
  stay n m e card d c s = (card, d, refl, c, rw e s)

  probe_lem :
      (bus device func n : ℕ)
      → IsFunction bus device func
      → n ≡ bus * 256 + device * 8 + func
      → Advances (probe ports bus device func) n (n + 1)
  unfolding probe
  probe_lem bus device func n f e card d c s =
      let (d', run, same) = r_pci_32_lem ports bridge bus device func 0 d f (omega arith) in
      let at : config_address bus device func 0 ≡ 2 ^ 31 + n * 2 ^ 8 = omega arith in
      let id : config d (config_address bus device func 0) ≡ id_of n =
        c (config_address bus device func 0) ∙ ap space at in
      let fits : id_of n < 2 ^ 32 = rw id at (config_small d (config_address bus device func 0)) in
      elim (Bool-cases (id_of n == no_function)) [
        | left gap ↦ (
          card,
          d',
          rw (run, id, gap) refl,
          λ a. same a ∙ c a,
          Seen-absent id_of n card s ((==_iff (id_of n) no_function).0 gap),
        )
        | right there ↦ (
          identify bus device func (id_of n) card,
          d',
          rw (run, id, there) refl,
          λ a. same a ∙ c a,
          Seen-present id_of n (identify bus device func (id_of n) card)
              (λ gap. ground (arith, (==_iff (id_of n) no_function).1 gap))
              (identify-IsVerdict id_of bus device func n card f e fits),
        )
      ]

  scan_functions_lem :
      (k bus device func n m : ℕ)
      → bus < 256
      → device < 32
      → func + k ≤ 8
      → n ≡ bus * 256 + device * 8 + func
      → m ≡ n + k
      → Advances (scan_functions ports k bus device func) n m
  unfolding scan_functions
  scan_functions_lem zero bus device func n m b dv f e em = stay n m (omega arith)
  scan_functions_lem (suc k) bus device func n m b dv f e em =
      compose
        (probe_lem bus device func n
          (record { bus_small = b; device_small = dv; func_small = omega arith }) e)
        (scan_functions_lem k bus device (func + 1) (n + 1) m b dv (omega arith) (omega arith)
          (omega arith))

  scan_devices_lem :
      (k bus device n m : ℕ)
      → bus < 256
      → device + k ≤ 32
      → n ≡ bus * 256 + device * 8
      → m ≡ n + k * 8
      → Advances (scan_devices ports k bus device) n m
  unfolding scan_devices
  scan_devices_lem zero bus device n m b dv e em = stay n m (omega arith)
  scan_devices_lem (suc k) bus device n m b dv e em =
      compose
        (scan_functions_lem 8 bus device 0 n (n + 8) b (omega arith) (omega arith) (omega arith)
          refl)
        (scan_devices_lem k bus (device + 1) (n + 8) m b (omega arith) (omega arith) (omega arith))

  scan_busses_lem :
      (k bus n m : ℕ)
      → bus + k ≤ 256
      → n ≡ bus * 256
      → m ≡ n + k * 256
      → Advances (scan_busses ports k bus) n m
  unfolding scan_busses
  scan_busses_lem zero bus n m b e em = stay n m (omega arith)
  scan_busses_lem (suc k) bus n m b e em =
      compose
        (scan_devices_lem 32 bus 0 n (n + 256) (omega arith) (omega arith) (omega arith)
          (omega arith))
        (scan_busses_lem k (bus + 1) (n + 256) m (omega arith) (omega arith) (omega arith))

  pub find_card_lem :
      (d : D)
      → IsSpace d
      → (card : Card) × (d' : D) × (find_card ports d ≡ ok (card, d'))
        × IsSpace d'
        × Seen id_of (255 * 256) card
  unfolding find_card
  find_card_lem d c =
      scan_busses_lem 255 0 0 (255 * 256) (omega arith) refl refl no_card d c (Seen-zero id_of)
