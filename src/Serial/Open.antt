-- ===== src/Serial/Open.antt =====
-- `serial_open`, `serial_configure` and `serial_close` of app/src/serial_port.c. The terminal calls
-- and the constants of <termios.h> are arguments.
use i_mx6ull_water_qualit.Base.{
  ℕ, ◌-◌, ◌≡◌, ◌⊎◌, inl, inr, refl, arith, not, if◌then◌else◌, Bool, List, [], ◌∷◌, Option, none,
  some, bit_and, bit_or, Bool-cases, Option-cases,
}
use i_mx6ull_water_qualit.Base.Int.{ℤ, pos, negsuc, ltb_ℤ, eqb_ℤ, eqb_ℤ→eq}

-- the members of `struct termios` that the code sets; the kernel's calls see the others
pub record Termios : Type 0 where
  pub c_cflag : ℕ
  pub vmin : ℕ
  pub vtime : ℕ

-- What <termios.h> and the kernel provide. `none` and `false` are calls that fail.
pub record Tty (P S : Type 0) : Type 0 where
  pub clocal_cread : ℕ
  pub csize : ℕ
  pub cs8 : ℕ
  pub parenb : ℕ
  pub cstopb : ℕ
  pub crtscts : ℕ
  pub b9600 : S
  pub b19200 : S
  pub b38400 : S
  pub b57600 : S
  pub b115200 : S
  pub open_device : P → ℤ
  pub tcgetattr : ℤ → Option Termios
  pub cfmakeraw : Termios → Termios
  pub cfsetispeed : Termios → S → Option Termios
  pub cfsetospeed : Termios → S → Option Termios
  pub tcsetattr : ℤ → Termios → Bool
  pub set_blocking : ℤ → Bool

-- `flags &= ~mask` of 32 bits
abbrev pub without : ℕ → ℕ → ℕ
without flags mask = bit_and flags (0xFFFFFFFF - mask)

-- What `serial_open` returns, the descriptors that it closes, and the settings that it installs.
pub record Opened : Type 0 where
  pub result : ℤ
  pub closed : List ℤ
  pub installed : Option Termios

-- `closing` is what `close` returns.
unfoldable pub serial_close : ℤ → (ℤ → ℤ) → ℤ
serial_close fd closing = if ltb_ℤ fd (pos 0) then negsuc 0 else closing fd

module _ {P S : Type 0} (tty : Tty P S) where
  -- The option is what `speed` points to, `none` for a null pointer.
  unfoldable pub serial_baudrate_to_flag : ℤ → Option S → ℤ × Option S
  serial_baudrate_to_flag baudrate none = (negsuc 0, none)
  serial_baudrate_to_flag baudrate (some speed) =
      if eqb_ℤ baudrate (pos 9600)
      then (pos 0, some tty.b9600)
      else (if eqb_ℤ baudrate (pos 19200)
          then (pos 0, some tty.b19200)
          else (if eqb_ℤ baudrate (pos 38400)
              then (pos 0, some tty.b38400)
              else (if eqb_ℤ baudrate (pos 57600)
                  then (pos 0, some tty.b57600)
                  else (if eqb_ℤ baudrate (pos 115200)
                      then (pos 0, some tty.b115200)
                      else (negsuc 0, some speed)))))

  -- the eight assignments to `options`
  unfoldable pub set_options : Termios → Termios
  set_options options =
      let c_cflag = bit_or options.c_cflag tty.clocal_cread in
      let c_cflag = without c_cflag tty.csize in
      let c_cflag = bit_or c_cflag tty.cs8 in
      let c_cflag = without c_cflag tty.parenb in
      let c_cflag = without c_cflag tty.cstopb in
      let c_cflag = without c_cflag tty.crtscts in record { c_cflag = c_cflag; vmin = 0; vtime = 0 }

  -- from `cfsetispeed` on
  -- `tcflush` drops what the kernel has buffered.
  unfoldable pub install : ℤ → S → Termios → ℤ × Option Termios
  install fd speed options = elim (tty.cfsetispeed options speed) [
    | none ↦ (negsuc 0, none)
    | some received ↦ elim (tty.cfsetospeed received speed) [
      | none ↦ (negsuc 0, none)
      | some both ↦
          (if tty.tcsetattr fd (set_options both)
            then (pos 0, some (set_options both))
            else (negsuc 0, none))
    ]
  ]

  -- `blank` is what `speed` holds before it is set.
  unfoldable pub serial_configure : S → ℤ → ℤ → ℤ × Option Termios
  serial_configure blank fd baudrate =
      let (result, out) = serial_baudrate_to_flag baudrate (some blank) in
      if not (eqb_ℤ result (pos 0)) then (negsuc 0, none) else elim out [
        | none ↦ (negsuc 0, none)
        | some speed ↦ elim (tty.tcgetattr fd) [
          | none ↦ (negsuc 0, none)
          | some options ↦ install fd speed (tty.cfmakeraw options)
        ]
      ]

  unfoldable pub serial_open : S → Option P → ℤ → Opened
  serial_open blank none baudrate = record { result = negsuc 0; closed = []; installed = none }
  serial_open blank (some device) baudrate =
      let fd = tty.open_device device in
      if ltb_ℤ fd (pos 0)
      then record { result = negsuc 0; closed = []; installed = none }
      else (let configured = serial_configure blank fd baudrate in
          if not (eqb_ℤ configured.0 (pos 0))
          then record { result = negsuc 0; closed = fd ∷ []; installed = configured.1 }
          else (if tty.set_blocking fd
              then record { result = fd; closed = []; installed = configured.1 }
              else record { result = negsuc 0; closed = fd ∷ []; installed = configured.1 }))

  abbrev pub IsSupported : ℤ → Type 0
  IsSupported baudrate =
      (baudrate ≡ pos 9600)
      ⊎ ((baudrate ≡ pos 19200)
          ⊎ ((baudrate ≡ pos 38400) ⊎ ((baudrate ≡ pos 57600) ⊎ (baudrate ≡ pos 115200))))

  -- set up with the settings that the code asks for, or not at all
  abbrev Configured : ℤ × Option Termios → Type 0
  Configured r =
      (r ≡ (negsuc 0, none)) ⊎ ((options : Termios) × (r ≡ (pos 0, some (set_options options))))

  flag_cases :
      (baudrate : ℤ) (blank : S)
      → (serial_baudrate_to_flag baudrate (some blank) ≡ (negsuc 0, some blank))
        ⊎ (IsSupported baudrate
            × (speed : S) × (serial_baudrate_to_flag baudrate (some blank) ≡ (pos 0, some speed)))
  unfolding serial_baudrate_to_flag
  flag_cases baudrate blank = elim (Bool-cases (eqb_ℤ baudrate (pos 9600))) [
    | inl h0 ↦ inr (inl (eqb_ℤ→eq baudrate (pos 9600) h0), tty.b9600, rw (h0) refl)
    | inr n0 ↦ elim (Bool-cases (eqb_ℤ baudrate (pos 19200))) [
      | inl h1 ↦ inr (inr (inl (eqb_ℤ→eq baudrate (pos 19200) h1)), tty.b19200, rw (n0, h1) refl)
      | inr n1 ↦ elim (Bool-cases (eqb_ℤ baudrate (pos 38400))) [
        | inl h2 ↦
            inr
              (inr (inr (inl (eqb_ℤ→eq baudrate (pos 38400) h2))), tty.b38400, rw (n0, n1, h2) refl)
        | inr n2 ↦ elim (Bool-cases (eqb_ℤ baudrate (pos 57600))) [
          | inl h3 ↦ inr (
            inr (inr (inr (inl (eqb_ℤ→eq baudrate (pos 57600) h3)))),
            tty.b57600,
            rw (n0, n1, n2, h3) refl,
          )
          | inr n3 ↦ elim (Bool-cases (eqb_ℤ baudrate (pos 115200))) [
            | inl h4 ↦ inr (
              inr (inr (inr (inr ((eqb_ℤ→eq baudrate (pos 115200) h4))))),
              tty.b115200,
              rw (n0, n1, n2, n3, h4) refl,
            )
            | inr n4 ↦ inl (rw (n0, n1, n2, n3, n4) refl)
          ]
        ]
      ]
    ]
  ]

  install-Configured :
      (fd : ℤ) (speed : S) (options : Termios) → Configured (install fd speed options)
  unfolding install
  install-Configured fd speed options = elim (Option-cases (tty.cfsetispeed options speed)) [
    | inl e ↦ inl (rw (install, e) refl)
    | inr (received, e) ↦ elim (Option-cases (tty.cfsetospeed received speed)) [
      | inl o ↦ inl (rw (install, e, o) refl)
      | inr (both, o) ↦ elim (Bool-cases (tty.tcsetattr fd (set_options both))) [
        | inl t ↦ inr (both, rw (install, e, o, t) refl)
        | inr t ↦ inl (rw (install, e, o, t) refl)
      ]
    ]
  ]

  serial_configure_cases :
      (blank : S) (fd baudrate : ℤ)
      → (serial_configure blank fd baudrate ≡ (negsuc 0, none))
        ⊎ (IsSupported baudrate
            × (options : Termios) × (serial_configure blank fd baudrate
                ≡ (pos 0, some (set_options options))))
  unfolding serial_configure
  serial_configure_cases blank fd baudrate = elim (flag_cases baudrate blank) [
    | inl e ↦ inl (rw e refl)
    | inr (ok, speed, e) ↦ elim (Option-cases (tty.tcgetattr fd)) [
      | inl g ↦ inl (rw (e, g) refl)
      | inr (options, g) ↦ elim (install-Configured fd speed (tty.cfmakeraw options)) [
        | inl i ↦ inl (rw (e, g, i) refl)
        | inr (set, i) ↦ inr (ok, set, rw (e, g, i) refl)
      ]
    ]
  ]

  -- When `open` gives a descriptor, `serial_open` either returns it, has closed nothing and has
  -- installed its settings for one of the five baud rates, or returns -1 and has closed it.
  pub serial_open_owns :
      (blank : S) (device : P) (baudrate : ℤ) (fd : ℕ)
      → tty.open_device device ≡ pos fd
      → let opened = serial_open blank (some device) baudrate in
        (IsSupported baudrate
          × (options : Termios) × (opened
              ≡ record { result = pos fd; closed = []; installed = some (set_options options) }))
        ⊎ ((opened.result ≡ negsuc 0) × (opened.closed ≡ pos fd ∷ []))
  unfolding serial_open
  serial_open_owns blank device baudrate fd e =
      elim (serial_configure_cases blank (pos fd) baudrate) [
        | inl c ↦ inr (ground (arith, c), ground (arith, c))
        | inr (ok, options, c) ↦ elim (Bool-cases (tty.set_blocking (pos fd))) [
          | inl b ↦ inl (ok, options, ground (arith, c))
          | inr b ↦ inr (ground (arith, c), ground (arith, c))
        ]
      ]
