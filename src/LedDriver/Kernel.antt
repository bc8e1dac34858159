-- ===== src/LedDriver/Kernel.antt =====
-- What driver/water_alarm/newchrled.c holds of the kernel, and the calls that take and give it back.
use i_mx6ull_water_qualit.Base.{ℕ, ◌≡◌, Bool, true, false, List, [], ◌∷◌, Option, none, some}

-- the five addresses that are mapped
pub data Address : Type 0 where
  ccm_ccgr1_base : Address
  sw_mux_base : Address
  sw_pad_base : Address
  gpio1_dr_base : Address
  gpio1_gdir_base : Address

-- The calls that succeed, with the device number that they are given.
pub data Call : Type 0 where
  ioremap : Address → Call
  iounmap : Address → Call
  register_region : ℕ → Call
  unregister_region : ℕ → Call
  cdev_add : ℕ → Call
  cdev_del : Call
  class_create : Call
  class_destroy : Call
  device_create : ℕ → Call
  device_destroy : ℕ → Call

pub record Mapped : Type 0 where
  pub clock : Bool
  pub mux : Bool
  pub pad : Bool
  pub data_register : Bool
  pub direction : Bool

abbrev pub is_mapped : Address → Mapped → Bool
is_mapped ccm_ccgr1_base m = m.clock
is_mapped sw_mux_base m = m.mux
is_mapped sw_pad_base m = m.pad
is_mapped gpio1_dr_base m = m.data_register
is_mapped gpio1_gdir_base m = m.direction

abbrev pub mark : Address → Bool → Mapped → Mapped
mark ccm_ccgr1_base b m = record m { clock = b }
mark sw_mux_base b m = record m { mux = b }
mark sw_pad_base b m = record m { pad = b }
mark gpio1_dr_base b m = record m { data_register = b }
mark gpio1_gdir_base b m = record m { direction = b }

abbrev pub all_of : Bool → Mapped
all_of b = record { clock = b; mux = b; pad = b; data_register = b; direction = b }

pub record Held : Type 0 where
  pub mapped : Mapped
  pub region : Option ℕ
  pub cdev : Option ℕ
  pub class : Bool
  pub device : Option ℕ

abbrev pub nothing : Held
nothing = record { mapped = all_of false; region = none; cdev = none; class = false; device = none }

-- When a call is in order: nothing is taken twice, and what is given back is held and not in use.
pub data Step : Call → Held → Held → Type 0 where
  maps :
      (a : Address) (h : Held)
      → is_mapped a h.mapped ≡ false
      → Step (ioremap a) h (record h { mapped = mark a true h.mapped })
  unmaps :
      (a : Address) (h : Held)
      → is_mapped a h.mapped ≡ true
      → Step (iounmap a) h (record h { mapped = mark a false h.mapped })
  takes_region :
      (devid : ℕ) (h : Held)
      → h.region ≡ none
      → Step (register_region devid) h (record h { region = some devid })
  gives_region :
      (devid : ℕ) (h : Held)
      → h.region ≡ some devid
      → h.cdev ≡ none
      → Step (unregister_region devid) h (record h { region = none })
  adds_cdev :
      (devid : ℕ) (h : Held)
      → h.region ≡ some devid
      → h.cdev ≡ none
      → Step (cdev_add devid) h (record h { cdev = some devid })
  deletes_cdev :
      (devid : ℕ) (h : Held) → h.cdev ≡ some devid → Step cdev_del h (record h { cdev = none })
  creates_class : (h : Held) → h.class ≡ false → Step class_create h (record h { class = true })
  destroys_class :
      (h : Held)
      → h.class ≡ true
      → h.device ≡ none
      → Step class_destroy h (record h { class = false })
  creates_device :
      (devid : ℕ) (h : Held)
      → h.class ≡ true
      → h.device ≡ none
      → Step (device_create devid) h (record h { device = some devid })
  destroys_device :
      (devid : ℕ) (h : Held)
      → h.device ≡ some devid
      → Step (device_destroy devid) h (record h { device = none })

pub data Steps : List Call → Held → Held → Type 0 where
  stop : (h : Held) → Steps [] h h
  next :
      {call : Call} {calls : List Call} {before mid after : Held}
      → Step call before mid
      → Steps calls mid after
      → Steps (call ∷ calls) before after
