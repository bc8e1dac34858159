-- ===== src/LedDriver/Unloading.antt =====
-- What the driver holds of the kernel after it is loaded, and after it is unloaded again.
use mathlib.Core.Path.{subst}
use i_mx6ull_water_qualit.Base.{
  ℕ, ◌≡◌, refl, sym, Bool, true, false, List, ◌∷◌, ◌++◌, Option, none, some,
}
use i_mx6ull_water_qualit.Base.Int.{pos}
use i_mx6ull_water_qualit.LedDriver.{Registers}
use i_mx6ull_water_qualit.LedDriver.Kernel
use i_mx6ull_water_qualit.LedDriver.Kernel.{
  Address, Call, Held, all_of, nothing, Step, Steps, stop, next, maps, unmaps, takes_region,
  gives_region, adds_cdev, deletes_cdev, creates_class, destroys_class, creates_device,
  destroys_device,
}
use i_mx6ull_water_qualit.LedDriver.Loading.{
  all_mapped, Answers, NewchrledDev, Loaded, ptr_err, load_module, led_exit,
}

-- Everything is mapped, and the driver has its number and its character device.
abbrev pub half_loaded : ℕ → Bool → Held
half_loaded devid class = record {
  mapped = all_of true;
  region = some devid;
  cdev = some devid;
  class = class;
  device = none;
}

-- what must hold of the calls, by the answers to the last two
abbrev pub Outcome : Option ℕ → Option ℕ → Loaded → Type 0
Outcome (some errno) device_error l =
    (l.result ≡ ptr_err errno) × Steps l.calls nothing (half_loaded l.dev.devid false)
Outcome none (some errno) l =
    (l.result ≡ ptr_err errno) × Steps l.calls nothing (half_loaded l.dev.devid true)
Outcome none none l = (l.result ≡ pos 0) × Steps (l.calls ++ led_exit l.dev) nothing nothing

-- the five mappings, in front of other calls
mapped_first :
    (calls : List Call) (after : Held)
    → Steps calls (record nothing { mapped = all_of true }) after
    → Steps (all_mapped ++ calls) nothing after
mapped_first calls after steps = next (maps _ _ refl) (
    next (maps _ _ refl) (next (maps _ _ refl) (next (maps _ _ refl) (next (maps _ _ refl) steps))))

registered_first :
    (devid : ℕ) (calls : List Call) (after : Held)
    → Steps calls (half_loaded devid false) after
    → Steps
        (all_mapped ++ Kernel.register_region devid ∷ Kernel.cdev_add devid ∷ calls)
        nothing
        after
registered_first devid calls after steps =
    mapped_first _ after
      (next (takes_region devid _ refl) (next (adds_cdev devid _ refl refl) steps))

-- the calls of `led_exit`, after which nothing is held
given_back :
    (dev : NewchrledDev)
    → Steps (led_exit dev) (record (half_loaded dev.devid true) { device = some dev.devid }) nothing
unfolding led_exit
given_back dev = next (unmaps _ _ refl) (
    next (unmaps _ _ refl) (
      next (unmaps _ _ refl) (
        next (unmaps _ _ refl) (
          next (unmaps _ _ refl) (
            next (deletes_cdev dev.devid _ refl) (
              next (gives_region dev.devid _ refl refl) (
                next (destroys_device dev.devid _ refl)
                  (next (destroys_class _ refl refl) (stop nothing)))))))))

by_answers :
    (class_error device_error : Option ℕ) (allocated : ℕ) (dev : NewchrledDev) (r : Registers)
    → Outcome class_error device_error (
        load_module
          (record {
            allocated = allocated;
            region_ok = true;
            cdev_ok = true;
            class_error = class_error;
            device_error = device_error;
          })
          dev
          r)
unfolding load_module
by_answers (some errno) device_error allocated dev r = (refl, registered_first _ _ _ (stop _))
by_answers none (some errno) allocated dev r =
    (refl, registered_first _ _ _ (next (creates_class _ refl) (stop _)))
by_answers none none allocated dev r = (
  refl,
  registered_first _ _ _
      (next (creates_class _ refl) (next (creates_device _ _ refl refl) (given_back _))),
)

-- If the device number and the character device are got, then `led_init` returns 0 and the calls of
-- `led_exit` after it give back, in order, all that was taken; or `class_create` or `device_create`
-- fails, its error is returned, and all that was taken before is still held.
pub load_module-Outcome :
    (k : Answers) (dev : NewchrledDev) (r : Registers)
    → k.region_ok ≡ true
    → k.cdev_ok ≡ true
    → Outcome k.class_error k.device_error (load_module k dev r)
load_module-Outcome k dev r region cdev =
    subst {A = Bool × Bool}
      (λ p.
        Outcome k.class_error k.device_error
          (load_module (record k { region_ok = p.0; cdev_ok = p.1 }) dev r))
      {x = (true, true)} {y = (k.region_ok, k.cdev_ok)} (λ i. (sym region i, sym cdev i))
      (by_answers k.class_error k.device_error k.allocated dev r)
