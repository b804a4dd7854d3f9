-- ===== src/Device/Cases.antt =====
-- The cases of a device's backend and template.
use sensorium.Base.{◌≡◌, refl, Option, none, some}
use sensorium.Template.I2c
use sensorium.Template.Spi
use sensorium.Template.Uart
use sensorium.Device.{
  Backend, TemplateSpec, Worker, template_backend, controller_backend, Template, bank, spi_state,
  uart_state,
}

pub data BackendCase (b : Backend) : Type 0 where
  of_template : (t : TemplateSpec) → b ≡ template_backend t → BackendCase b
  of_external : b ≡ controller_backend none → BackendCase b
  of_worker : (w : Worker) → b ≡ controller_backend (some w) → BackendCase b

pub Backend-cases : (b : Backend) → BackendCase b
Backend-cases (template_backend t) = of_template t refl
Backend-cases (controller_backend none) = of_external refl
Backend-cases (controller_backend (some w)) = of_worker w refl

pub data StateCase (s : Option Template) : Type 0 where
  no_state : s ≡ none → StateCase s
  of_bank : (b : I2c.Bank) → s ≡ some (bank b) → StateCase s
  of_spi : (t : Spi.Script) → s ≡ some (spi_state t) → StateCase s
  of_uart : (t : Uart.Script) → s ≡ some (uart_state t) → StateCase s

pub State-cases : (s : Option Template) → StateCase s
State-cases none = no_state refl
State-cases (some (bank b)) = of_bank b refl
State-cases (some (spi_state t)) = of_spi t refl
State-cases (some (uart_state t)) = of_uart t refl
