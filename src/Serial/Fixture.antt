-- ===== src/Serial/Fixture.antt =====
-- A terminal for which every call of app/src/serial_port.c succeeds.
use i_mx6ull_water_qualit.Base.{ℕ, true, some}
use i_mx6ull_water_qualit.Base.Int.{pos}
use i_mx6ull_water_qualit.Serial.Open.{Tty, Termios}

abbrev plain : Termios
plain = record { c_cflag = 0; vmin = 1; vtime = 1 }

abbrev pub board : (P : Type 0) → Tty P ℕ
board P = record {
  clocal_cread = 0x880;
  csize = 0x30;
  cs8 = 0x30;
  parenb = 0x100;
  cstopb = 0x40;
  crtscts = 0x80000000;
  b9600 = 13;
  b19200 = 14;
  b38400 = 15;
  b57600 = 4097;
  b115200 = 4098;
  open_device = λ _. pos 3;
  tcgetattr = λ _. some plain;
  cfmakeraw = λ options. options;
  cfsetispeed = λ options _. some options;
  cfsetospeed = λ options _. some options;
  tcsetattr = λ _ _. true;
  set_blocking = λ _. true;
}
