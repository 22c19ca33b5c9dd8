-- ===== src/Gpio.antt =====
-- Class GPIO_DRIVER (components/peripherals/gpio/gpio_driver.cpp): one pin of the chip. The functions
-- of the ESP-IDF that it calls are the parameter `idf`. A method takes the object and the chip's
-- world; `installed` is the static member `driver_instaled`. The constructor's copy of the pin number
-- as `gpio_num_t` is the number itself. The argument that `register_interrupt` keeps for a handler
-- is not modelled.
pub mod Wiring
pub mod Wired
pub mod Created
pub mod Laws
mod Tests
use acionna.Prelude.{ℕ, ◌-◌, Bool, false, not, ◌==◌, if◌then◌else◌}

pub data Direction : Type 0 where
  input input_output : Direction

pub data Pull : Type 0 where
  pullup_only pulldown_only pullup_pulldown floating : Pull

-- The functions of driver/gpio.h, by the pin's number.
pub record Idf : Type 1 where
  pub World : Type 0
  pub gpio_set_direction : ℕ → Direction → World → World
  pub gpio_set_pull_mode : ℕ → Pull → World → World
  pub gpio_get_level : ℕ → World → ℕ
  pub gpio_set_level : ℕ → ℕ → World → World
  pub gpio_reset_pin : ℕ → World → World
  pub gpio_iomux_out : ℕ → ℕ → World → World
  pub gpio_set_drive_capability : ℕ → ℕ → World → World
  pub gpio_hold : ℕ → Bool → World → World
  pub gpio_deep_sleep_hold : Bool → World → World
  pub gpio_install_isr_service : World → World
  pub gpio_uninstall_isr_service : World → World
  pub gpio_isr_handler_add : ℕ → World → World
  pub gpio_isr_handler_remove : ℕ → World → World
  pub gpio_set_intr_type : ℕ → ℕ → World → World
  pub gpio_intr_enable : ℕ → World → World
  pub gpio_intr_disable : ℕ → World → World

pub record GpioDriver : Type 0 where
  pub pin_number : ℕ
  pub direction : ℕ
  pub level : ℕ

-- The level 0 or 1 that `!level_` leaves.
abbrev pub not_level : ℕ → ℕ
not_level level = if level == 0 then 1 else 0

abbrev pub direction_of : ℕ → Direction
direction_of direction = if direction == 1 then input_output else input

abbrev pub pull_of : ℕ → Pull
pull_of mode =
    if mode == 1
    then pulldown_only
    else if mode == 2
    then pullup_pulldown
    else if mode == 3
    then floating
    else pullup_only

module _ (idf : Idf) where
  open idf use {
    World, gpio_set_direction, gpio_set_pull_mode, gpio_get_level, gpio_set_level, gpio_reset_pin,
    gpio_iomux_out, gpio_set_drive_capability, gpio_hold, gpio_install_isr_service,
    gpio_uninstall_isr_service, gpio_isr_handler_add, gpio_isr_handler_remove, gpio_set_intr_type,
    gpio_intr_enable, gpio_intr_disable,
  }

  unfoldable pub pull : ℕ → GpioDriver → World → World
  pull mode g w = gpio_set_pull_mode g.pin_number (pull_of mode) w

  -- The pull-up is set in input mode only.
  unfoldable pub mode : ℕ → GpioDriver → World → GpioDriver × World
  mode direction g w =
      let w1 = gpio_set_direction g.pin_number (direction_of direction) w in
      (
        record g { direction = direction },
        if direction == 0 then gpio_set_pull_mode g.pin_number (pull_of 0) w1 else w1,
      )

  -- GPIO_DRIVER(pin_number, direction, remap)
  unfoldable pub create : ℕ → ℕ → Bool → World → GpioDriver × World
  create pin_number direction remap w =
      let r = mode direction (record { pin_number = pin_number; direction = 0; level = 0 }) w in
      (r.0, if remap then gpio_iomux_out pin_number 2 r.1 else r.1)

  unfoldable pub read : GpioDriver → World → GpioDriver × ℕ
  read g w = let level = gpio_get_level g.pin_number w in (record g { level = level }, level)

  unfoldable pub write : ℕ → GpioDriver → World → World
  write level g w = gpio_set_level g.pin_number level w

  unfoldable pub toggle : GpioDriver → World → GpioDriver × World
  toggle g w =
      let g' = record g { level = not_level g.level } in
      (g', gpio_set_level g'.pin_number g'.level w)

  unfoldable pub reset : GpioDriver → World → World
  reset g w = gpio_reset_pin g.pin_number w

  unfoldable pub strength : ℕ → GpioDriver → World → World
  strength cap g w = gpio_set_drive_capability g.pin_number cap w

  unfoldable pub hold : Bool → GpioDriver → World → World
  hold on_hold g w = gpio_hold g.pin_number on_hold w

  unfoldable pub deep_sleep_hold : Bool → World → World
  deep_sleep_hold on_hold w = idf.gpio_deep_sleep_hold on_hold w

  unfoldable pub register_interrupt : GpioDriver → ℕ → World → ℕ × World
  register_interrupt g installed w =
      if installed == 0
      then (1, gpio_isr_handler_add g.pin_number (gpio_install_isr_service w))
      else (installed, gpio_isr_handler_add g.pin_number w)

  unfoldable pub enable_interrupt : ℕ → GpioDriver → World → World
  enable_interrupt type g w = gpio_intr_enable g.pin_number (gpio_set_intr_type g.pin_number type w)

  unfoldable pub disable_interrupt : GpioDriver → World → World
  disable_interrupt g w = gpio_intr_disable g.pin_number w

  -- Also the destructor.
  unfoldable pub unregister_interrupt : GpioDriver → ℕ → World → ℕ × World
  unregister_interrupt g installed w =
      let w1 = disable_interrupt g (gpio_isr_handler_remove g.pin_number w) in
      if installed == 0
      then (installed, w)
      else if installed - 1 == 0
      then (installed - 1, w1)
      else (installed - 1, gpio_uninstall_isr_service w1)
