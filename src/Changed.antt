-- ===== src/Changed.antt =====
-- driver/src/ioctls.h: the GCOM_CHANGED_* bits of a signal state's changed mask.
use ghostcom.Base.{ℕ}

abbrev pub changed_baud : ℕ
changed_baud = 0x0001

abbrev pub changed_line_ctrl : ℕ
changed_line_ctrl = 0x0002

abbrev pub changed_dtr : ℕ
changed_dtr = 0x0004

abbrev pub changed_rts : ℕ
changed_rts = 0x0008

abbrev pub changed_break : ℕ
changed_break = 0x0010

abbrev pub changed_handflow : ℕ
changed_handflow = 0x0020

abbrev pub changed_chars : ℕ
changed_chars = 0x0040

abbrev pub changed_wait_mask : ℕ
changed_wait_mask = 0x0080

abbrev pub changed_com_open : ℕ
changed_com_open = 0x0100

abbrev pub changed_com_close : ℕ
changed_com_close = 0x0200
