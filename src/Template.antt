-- ===== src/Template.antt =====
-- src/sensorium/runtime/templates.py: the built-in device backends, one module for each class.
pub mod I2c
pub mod Spi
pub mod Uart
