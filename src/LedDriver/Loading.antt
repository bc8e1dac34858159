-- ===== src/LedDriver/Loading.antt =====
-- `led_init` and `led_exit` of driver/water_alarm/newchrled.c, with their calls of the kernel.
use i_mx6ull_water_qualit.Base.{
  ℕ, ◌-◌, ◌+◌, ◌*◌, ◌/◌, ◌%◌, ◌^◌, ◌==◌, if◌then◌else◌, Bool, List, [], ◌∷◌, ◌++◌, Option, none,
  some,
}
use i_mx6ull_water_qualit.Base.Int.{ℤ, pos, negsuc}
use i_mx6ull_water_qualit.LedDriver.{Registers, led_init}
use i_mx6ull_water_qualit.LedDriver.Kernel.{
  ccm_ccgr1_base, sw_mux_base, sw_pad_base, gpio1_dr_base, gpio1_gdir_base, Call, ioremap, iounmap,
  register_region, unregister_region, cdev_add, cdev_del, class_create, class_destroy,
  device_create, device_destroy,
}

-- `struct newchrled_dev`, without what the kernel keeps in it
pub record NewchrledDev : Type 0 where
  pub devid : ℕ
  pub major : ℕ
  pub minor : ℕ

-- MKDEV, MAJOR and MINOR of the kernel, whose minor numbers have 20 bits
abbrev pub mkdev : ℕ → ℕ → ℕ
mkdev major minor = major * 2 ^ 20 + minor

abbrev pub major_of : ℕ → ℕ
major_of devid = devid / 2 ^ 20

abbrev pub minor_of : ℕ → ℕ
minor_of devid = devid % 2 ^ 20

-- What the kernel answers: the number that it allocates, whether the calls succeed whose result
-- `led_init` does not read, and the error number of those whose result it reads.
pub record Answers : Type 0 where
  pub allocated : ℕ
  pub region_ok : Bool
  pub cdev_ok : Bool
  pub class_error : Option ℕ
  pub device_error : Option ℕ

-- PTR_ERR: minus the error number, which is not 0
abbrev pub ptr_err : ℕ → ℤ
ptr_err errno = negsuc (errno - 1)

abbrev pub all_mapped : List Call
all_mapped =
    ioremap ccm_ccgr1_base
    ∷ ioremap sw_mux_base
    ∷ ioremap sw_pad_base
    ∷ ioremap gpio1_dr_base
    ∷ ioremap gpio1_gdir_base
    ∷ []

-- The device number: the one of `major`, if there is one, or the one that is allocated.
unfoldable pub choose_devid : Answers → NewchrledDev → NewchrledDev
choose_devid k dev =
    if dev.major == 0
    then (if k.region_ok
        then record {
          devid = k.allocated;
          major = major_of k.allocated;
          minor = minor_of k.allocated;
        }
        else record { devid = dev.devid; major = major_of dev.devid; minor = minor_of dev.devid })
    else record dev { devid = mkdev dev.major 0 }

-- a call that is made, if it succeeds
abbrev pub made : Bool → Call → List Call
made ok call = if ok then call ∷ [] else []

pub record Loaded : Type 0 where
  pub result : ℤ
  pub calls : List Call
  pub registers : Registers
  pub dev : NewchrledDev

-- from `class_create` on
abbrev pub create_device : Answers → ℕ → ℤ × List Call
create_device k devid = elim k.class_error [
  | some errno ↦ (ptr_err errno, [])
  | none ↦ elim k.device_error [
    | some errno ↦ (ptr_err errno, class_create ∷ [])
    | none ↦ (pos 0, class_create ∷ device_create devid ∷ [])
  ]
]

unfoldable pub load_module : Answers → NewchrledDev → Registers → Loaded
load_module k dev r =
    let chosen = choose_devid k dev in
    record {
      result = (create_device k chosen.devid).0;
      calls =
          all_mapped
          ++ made k.region_ok (register_region chosen.devid)
          ++ made k.cdev_ok (cdev_add chosen.devid)
          ++ (create_device k chosen.devid).1;
      registers = led_init r;
      dev = chosen;
    }

unfoldable pub led_exit : NewchrledDev → List Call
led_exit dev =
    iounmap ccm_ccgr1_base
    ∷ iounmap sw_mux_base
    ∷ iounmap sw_pad_base
    ∷ iounmap gpio1_dr_base
    ∷ iounmap gpio1_gdir_base
    ∷ cdev_del
    ∷ unregister_region dev.devid
    ∷ device_destroy dev.devid
    ∷ class_destroy
    ∷ []
